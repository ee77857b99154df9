-- ===== src/NodeIdServer/Storage/Faithful.antt =====
-- storage_backend.hpp: what IStorageBackend documents of a storage that works, and what the setters
-- of storage_marshaller.hpp do on it.
use uavcan.Base.{
  ℕ, ◌<◌, ◌^◌, ◌≡◌, refl, ap, ◌∙◌, true, false, List, [], ◌∷◌, ◌++◌, some, length, ==_self,
  if◌then◌else◌, IsBytes,
}
use uavcan.NodeIdServer.{same_bytes}
use uavcan.NodeIdServer.Storage.{
  Backend, decimal, convert_unique_id_to_hex, unique_id_size, get_number, get_unique_id,
}
use uavcan.NodeIdServer.Storage.Numbers.{parse_number-decimal}
use uavcan.NodeIdServer.Storage.UniqueIds.{parse_unique_id-convert_unique_id_to_hex}

-- A value that was set is what a later get of its key gives, and other keys keep theirs.
abbrev pub IsFaithful : {S : Type 0} → Backend S → Type 0
IsFaithful {S} b =
    (s : S) (key text key' : List ℕ)
    → b.get (b.set s key text) key' ≡ (if same_bytes key key' then text else b.get s key')

pub same_bytes_self : (xs : List ℕ) → same_bytes xs xs ≡ true
same_bytes_self [] = refl
same_bytes_self (x ∷ xs) = rw (==_self x) (same_bytes_self xs)

pub same_bytes-append : (xs ys zs : List ℕ) → same_bytes (xs ++ ys) (xs ++ zs) ≡ same_bytes ys zs
same_bytes-append [] ys zs = refl
same_bytes-append (x ∷ xs) ys zs = rw (==_self x) (same_bytes-append xs ys zs)

module _ {S : Type 0} (b : Backend S) where
  pub get-set : (s : S) (key text : List ℕ) → IsFaithful b → b.get (b.set s key text) key ≡ text
  get-set s key text f =
      f s key text key ∙ ap (λ t. if t then text else b.get s key) (same_bytes_self key)

  pub get-set_other :
      (s : S) (key text key' : List ℕ)
      → IsFaithful b
      → same_bytes key key' ≡ false
      → b.get (b.set s key text) key' ≡ b.get s key'
  get-set_other s key text key' f h =
      f s key text key' ∙ ap (λ t. if t then text else b.get s key') h

  -- A number of 32 bits is read back as it was set, and so is a unique id.
  pub get_number-set :
      (s : S) (key : List ℕ) (value : ℕ)
      → IsFaithful b
      → value < 2 ^ 32
      → get_number b (b.set s key (decimal value)) key ≡ some value
  unfolding get_number
  get_number-set s key value f lt =
      rw (get-set s key (decimal value) f) (parse_number-decimal value lt)

  pub get_unique_id-set :
      (s : S) (key : List ℕ) (value : List ℕ)
      → IsFaithful b
      → IsBytes value
      → length value ≡ unique_id_size
      → get_unique_id b (b.set s key (convert_unique_id_to_hex value)) key ≡ some value
  unfolding get_unique_id
  get_unique_id-set s key value f bytes len =
      rw (get-set s key (convert_unique_id_to_hex value) f)
        (parse_unique_id-convert_unique_id_to_hex value bytes len)
