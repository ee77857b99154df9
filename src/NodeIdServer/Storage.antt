-- ===== src/NodeIdServer/Storage.antt =====
-- StorageMarshaller of storage_marshaller.hpp over IStorageBackend, which is an interface: a text,
-- by its character codes, for each key, empty where there is none. A `none` is -ErrFailure.
pub mod Numbers
pub mod UniqueIds
pub mod Faithful
use Prim.Native.Char.{code}
use Prim.Native.String.{String}
use uavcan.Base.{
  ℕ, zero, suc, ◌+◌, ◌-◌, ◌*◌, ◌/◌, ◌%◌, ◌^◌, bit_or, Bool, true, false, not, ◌&&◌, ◌||◌, List, [],
  ◌∷◌, ◌++◌, map, Option, none, some, length, ltb, leb, ◌==◌, if◌then◌else◌,
}

abbrev pub codes : String → List ℕ
codes String.[] = []
codes (String.◌∷◌ c s) = code c ∷ codes s

pub record Backend (S : Type 0) : Type 0 where
  pub get : S → List ℕ → List ℕ
  pub set : S → List ℕ → List ℕ → S

-- appendFormatted of %llu and %d: the decimal digits. Twenty digits are enough for 64 bits.
unfoldable pub digits : ℕ → ℕ → List ℕ → List ℕ
digits zero n rest = rest
digits (suc fuel) n rest =
    let more = digits fuel (n / 10) ((b'0' + n % 10) ∷ rest) in
    if ltb n 10 then (b'0' + n) ∷ rest else more

unfoldable pub decimal : ℕ → List ℕ
decimal n = digits 20 n []

abbrev pub is_digit : ℕ → Bool
is_digit c = leb b'0' c && leb c b'9'

unfoldable pub all_digits : List ℕ → Bool
all_digits [] = true
all_digits (c ∷ cs) = is_digit c && all_digits cs

-- strtoull on digits, in base 10.
unfoldable pub to_number : ℕ → List ℕ → ℕ
to_number acc [] = acc
to_number acc (c ∷ cs) = to_number (acc * 10 + (c - b'0')) cs

-- get of a uint32_t, on the text read.
unfoldable pub parse_number : List ℕ → Option ℕ
parse_number val =
    if length val == 0
    then none
    else if not (all_digits val)
    then none
    else if ltb 10 (length val)
    then none
    else some (to_number 0 val % 2 ^ 32)

abbrev pub nibble_to_hex : ℕ → ℕ
nibble_to_hex n = if ltb n 10 then b'0' + n else b'a' + (n - 10)

-- convertUniqueIDToHex, %02x of each byte.
unfoldable pub convert_unique_id_to_hex : List ℕ → List ℕ
convert_unique_id_to_hex [] = []
convert_unique_id_to_hex (b ∷ bs) =
    nibble_to_hex (b / 16) ∷ nibble_to_hex (b % 16) ∷ convert_unique_id_to_hex bs

abbrev pub to_lower : ℕ → ℕ
to_lower c = if leb b'A' c && leb c b'Z' then c + 32 else c

abbrev pub is_hex : ℕ → Bool
is_hex c = is_digit c || (leb b'a' c && leb c b'f')

unfoldable pub all_hex : List ℕ → Bool
all_hex [] = true
all_hex (c ∷ cs) = is_hex c && all_hex cs

-- convertLowerCaseHexCharToNibble.
abbrev pub hex_to_nibble : ℕ → ℕ
hex_to_nibble c = if ltb b'9' c then (c - b'a' + 10) % 2 ^ 8 else (c - b'0') % 2 ^ 8

-- The conversion loop of get of a UniqueID, two characters for a byte.
unfoldable pub hex_to_bytes : List ℕ → List ℕ
hex_to_bytes [] = []
hex_to_bytes (c ∷ []) = []
hex_to_bytes (c ∷ d ∷ cs) =
    bit_or (hex_to_nibble d) (hex_to_nibble c * 16 % 2 ^ 8) ∷ hex_to_bytes cs

abbrev pub unique_id_size : ℕ
unique_id_size = 16

unfoldable pub parse_unique_id : List ℕ → Option (List ℕ)
parse_unique_id val =
    if not (length val == unique_id_size * 2)
    then none
    else (let lower = map to_lower val in
        if not (all_hex lower) then none else some (hex_to_bytes lower))

module _ {S : Type 0} (b : Backend S) where
  unfoldable pub get_number : S → List ℕ → Option ℕ
  get_number s key = parse_number (b.get s key)

  unfoldable pub get_unique_id : S → List ℕ → Option (List ℕ)
  get_unique_id s key = parse_unique_id (b.get s key)

  -- setAndGetBack, for both types; the result is the value read back.
  unfoldable pub set_and_get_back : S → List ℕ → ℕ → Option ℕ × S
  set_and_get_back s key value = let s' = b.set s key (decimal value) in (get_number s' key, s')

  unfoldable pub set_and_get_back_unique_id : S → List ℕ → List ℕ → Option (List ℕ) × S
  set_and_get_back_unique_id s key value =
      let s' = b.set s key (convert_unique_id_to_hex value) in (get_unique_id s' key, s')
