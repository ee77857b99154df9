-- ===== src/NodeIdServer/Log/RoundTrip.antt =====
-- distributed/log.hpp: an entry that is written is the entry that is read.
use uavcan.Base.{
  ℕ, ◌%◌, ◌<◌, ◌≤◌, ◌^◌, ◌≡◌, refl, ◌∙◌, true, false, List, ◌++◌, some, length, ==_self,
  le→ltb_false, IsBytes, arith,
}
use uavcan.NodeIdServer.{ok, LogEntry, same_bytes, same_entry}
use uavcan.NodeIdServer.Storage.{
  codes, Backend, decimal, convert_unique_id_to_hex, unique_id_size, get_number, get_unique_id,
  set_and_get_back, set_and_get_back_unique_id,
}
use uavcan.NodeIdServer.Storage.Numbers.{parse_number-decimal}
use uavcan.NodeIdServer.Storage.UniqueIds.{parse_unique_id-convert_unique_id_to_hex}
use uavcan.NodeIdServer.Storage.Faithful.{
  IsFaithful, same_bytes_self, same_bytes-append, get-set, get-set_other, get_number-set,
  get_unique_id-set,
}
use uavcan.NodeIdServer.Log.{max_node_id, make_entry_key, read_entry, write_entry}

-- The fields are within the ranges of their types.
abbrev pub IsEntry : LogEntry → Type 0
IsEntry x =
    (x.term < 2 ^ 32)
    × IsBytes x.unique_id
    × (length x.unique_id ≡ unique_id_size)
    × (x.node_id ≤ max_node_id)

same_keys :
    (index : ℕ) (p q : List ℕ)
    → same_bytes (make_entry_key index p) (make_entry_key index q) ≡ same_bytes p q
unfolding make_entry_key
same_keys index p q = same_bytes-append (decimal index ++ codes "_") p q

same_entry_self : (x : LogEntry) → same_entry x x ≡ true
same_entry_self x = rw (==_self x.term, same_bytes_self x.unique_id, ==_self x.node_id) refl

module _ {S : Type 0} (b : Backend S) where
  -- The storage after an entry has been written.
  abbrev written : S → ℕ → LogEntry → S
  written s index x =
      b.set
        (b.set (b.set s (make_entry_key index (codes "term")) (decimal x.term))
          (make_entry_key index (codes "unique_id")) (convert_unique_id_to_hex x.unique_id))
        (make_entry_key index (codes "node_id")) (decimal x.node_id)

  pub write_entry-ok :
      (s : S) (index : ℕ) (x : LogEntry)
      → IsFaithful b
      → IsEntry x
      → write_entry b s index x ≡ (ok, written s index x)
  unfolding write_entry set_and_get_back set_and_get_back_unique_id
  write_entry-ok s index x f (t, bytes, len, n) =
      let s1 = b.set s (make_entry_key index (codes "term")) (decimal x.term) in
      let s2 =
        b.set s1 (make_entry_key index (codes "unique_id"))
          (convert_unique_id_to_hex x.unique_id) in
      let byte : x.node_id % 2 ^ 8 ≡ x.node_id = omega arith in
      rw
        (
          write_entry,
          get_number-set b s (make_entry_key index (codes "term")) x.term f t,
          get_unique_id-set b s1 (make_entry_key index (codes "unique_id")) x.unique_id f bytes len,
          get_number-set b s2 (make_entry_key index (codes "node_id")) x.node_id f (omega arith),
        )
        (rw byte (rw (same_entry_self x) refl))

  -- On a storage that works, an entry whose fields are within their ranges is stored, and it is the
  -- entry that is read at its index.
  pub read_entry-write_entry :
      (s : S) (index : ℕ) (x : LogEntry)
      → IsFaithful b
      → IsEntry x
      → let (res, s') = write_entry b s index x in (res ≡ ok) × (read_entry b s' index ≡ some x)
  unfolding read_entry get_number get_unique_id
  read_entry-write_entry s index x f valid =
      let (t, bytes, len, n) = valid in
      let key_t = make_entry_key index (codes "term") in
      let key_u = make_entry_key index (codes "unique_id") in
      let key_n = make_entry_key index (codes "node_id") in
      let s1 = b.set s key_t (decimal x.term) in
      let s2 = b.set s1 key_u (convert_unique_id_to_hex x.unique_id) in
      let s3 = b.set s2 key_n (decimal x.node_id) in
      let stored = write_entry-ok s index x f valid in
      let u_t : same_bytes key_u key_t ≡ false =
        same_keys index (codes "unique_id") (codes "term") in
      let n_t : same_bytes key_n key_t ≡ false = same_keys index (codes "node_id") (codes "term") in
      let n_u : same_bytes key_n key_u ≡ false =
        same_keys index (codes "node_id") (codes "unique_id") in
      let term : b.get s3 key_t ≡ decimal x.term =
        get-set_other b s2 key_n (decimal x.node_id) key_t f n_t
        ∙ get-set_other b s1 key_u (convert_unique_id_to_hex x.unique_id) key_t f u_t
        ∙ get-set b s key_t (decimal x.term) f in
      let unique_id : b.get s3 key_u ≡ convert_unique_id_to_hex x.unique_id =
        get-set_other b s2 key_n (decimal x.node_id) key_u f n_u
        ∙ get-set b s1 key_u (convert_unique_id_to_hex x.unique_id) f in
      let node_id : b.get s3 key_n ≡ decimal x.node_id = get-set b s2 key_n (decimal x.node_id) f in
      let byte : x.node_id % 2 ^ 8 ≡ x.node_id = omega arith in
      rw stored (
        refl,
        rw
            (
              read_entry,
              get_number,
              get_unique_id,
              term,
              parse_number-decimal x.term t,
              unique_id,
              parse_unique_id-convert_unique_id_to_hex x.unique_id bytes len,
              node_id,
              parse_number-decimal x.node_id (omega arith),
              le→ltb_false max_node_id x.node_id n,
              byte,
            )
            refl,
      )
