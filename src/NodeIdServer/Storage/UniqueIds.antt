-- ===== src/NodeIdServer/Storage/UniqueIds.antt =====
-- storage_marshaller.hpp: the text of a unique id is read back as that id.
use uavcan.Base.{
  ℕ, ◌*◌, ◌/◌, ◌%◌, ◌^◌, ◌<◌, ◌≡◌, refl, ap₂, bit_or, Bool, true, ◌&&◌, List, [], ◌∷◌, map, some,
  length, ◌==◌, every, every-at, IsBytes, ==_iff, arith,
}
use uavcan.NodeIdServer.Storage.{
  nibble_to_hex, convert_unique_id_to_hex, to_lower, is_hex, all_hex, hex_to_nibble, hex_to_bytes,
  unique_id_size, parse_unique_id,
}

-- What holds of a byte, which `every` tries for all of them.
byte_survives : ℕ → Bool
byte_survives n =
    let c = nibble_to_hex (n / 16) in
    let d = nibble_to_hex (n % 16) in
    to_lower c == c
    && to_lower d == d
    && is_hex c
    && is_hex d
    && bit_or (hex_to_nibble d) (hex_to_nibble c * 16 % 2 ^ 8) == n

every-byte_survives : every 256 byte_survives ≡ true
unfolding every byte_survives
every-byte_survives = refl

all_five :
    {a b c d e : Bool}
    → (a && b && c && d && e) ≡ true
    → (a ≡ true) × (b ≡ true) × (c ≡ true) × (d ≡ true) × (e ≡ true)
all_five h = ground arith

length-convert_unique_id_to_hex :
    (bs : List ℕ) → length (convert_unique_id_to_hex bs) ≡ length bs * 2
unfolding convert_unique_id_to_hex
length-convert_unique_id_to_hex [] = refl
length-convert_unique_id_to_hex (b ∷ bs) = omega (arith, length-convert_unique_id_to_hex bs)

byte_parts :
    (n : ℕ)
    → n < 256
    → let c = nibble_to_hex (n / 16) in
      let d = nibble_to_hex (n % 16) in
      (to_lower c ≡ c)
      × (to_lower d ≡ d)
      × (is_hex c ≡ true)
      × (is_hex d ≡ true)
      × (bit_or (hex_to_nibble d) (hex_to_nibble c * 16 % 2 ^ 8) ≡ n)
unfolding byte_survives
byte_parts n lt =
    let c = nibble_to_hex (n / 16) in
    let d = nibble_to_hex (n % 16) in
    let (a, b, h1, h2, e) = all_five (every-at 256 byte_survives n every-byte_survives lt) in
    (
      (==_iff (to_lower c) c).0 a,
      (==_iff (to_lower d) d).0 b,
      h1,
      h2,
      (==_iff (bit_or (hex_to_nibble d) (hex_to_nibble c * 16 % 2 ^ 8)) n).0 e,
    )

lower-convert_unique_id_to_hex :
    (bs : List ℕ)
    → IsBytes bs
    → (map to_lower (convert_unique_id_to_hex bs) ≡ convert_unique_id_to_hex bs)
      × (all_hex (convert_unique_id_to_hex bs) ≡ true)
      × (hex_to_bytes (convert_unique_id_to_hex bs) ≡ bs)
unfolding convert_unique_id_to_hex all_hex hex_to_bytes
lower-convert_unique_id_to_hex [] h = (refl, refl, refl)
lower-convert_unique_id_to_hex (b ∷ bs) (lt, h) =
    let (lower, hex, bytes) = lower-convert_unique_id_to_hex bs h in
    let (l1, l2, h1, h2, back) = byte_parts b lt in
    (ap₂ (◌∷◌) l1 (ap₂ (◌∷◌) l2 lower), rw (h1, h2) hex, ap₂ (◌∷◌) back bytes)

-- A unique id of 16 bytes is read back from the text that is written for it.
pub parse_unique_id-convert_unique_id_to_hex :
    (bs : List ℕ)
    → IsBytes bs
    → length bs ≡ unique_id_size
    → parse_unique_id (convert_unique_id_to_hex bs) ≡ some bs
unfolding parse_unique_id
parse_unique_id-convert_unique_id_to_hex bs h len =
    let (lower, hex, bytes) = lower-convert_unique_id_to_hex bs h in
    let size : length (convert_unique_id_to_hex bs) ≡ 32 =
      omega (arith, length-convert_unique_id_to_hex bs) in
    rw (size, lower, hex, bytes) refl
