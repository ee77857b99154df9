-- ===== src/Transport/TransferBuffer/Manager/Through.antt =====
-- A write through the pointer that `access` gave.
use uavcan.Base.{
  ℕ, ◌+◌, ◌≤◌, ◌≡◌, refl, sym, ap, ◌∙◌, arith, true, false, List, [], ◌∷◌, ◌++◌, some, length,
  Bool-cases, inl, inr,
}
use uavcan.Transport.TransferBuffer.Entry
use uavcan.Transport.TransferBuffer.Entry.{Entry, Key, same_key, key_is_empty}
use uavcan.Transport.TransferBuffer.Entry.Refines
use uavcan.Transport.TransferBuffer.Entry.Refines.{contents, room, IsAppended, write-IsAppended}
use uavcan.Transport.TransferBuffer.Manager.{
  Manager, find_first, replace_first, access, write_through,
}
use uavcan.Transport.TransferBuffer.Manager.Keys.{same_key_left, same_key_self}

find_first-key :
    (bs : List Entry) (key : Key) (e : Entry)
    → find_first bs key ≡ some e
    → same_key e.key key ≡ true
unfolding find_first
find_first-key [] key e = λ h. absurd (ground arith)
find_first-key (b ∷ bs) key e = elim (Bool-cases (same_key b.key key)) [
  | inl t ↦
      rw t (λ h. let same : b ≡ e = ground arith in ap (λ x. same_key x.key key) (sym same) ∙ t)
  | inr f ↦ rw f (λ h. find_first-key bs key e h)
]

-- The entry that is replaced is the one that its key finds, then and before.
find_first-replace_first :
    (bs : List Entry) (key : Key) (e e' : Entry)
    → e'.key ≡ e.key
    → find_first bs key ≡ some e
    → find_first (replace_first bs e') key ≡ some e'
unfolding find_first replace_first
find_first-replace_first [] key e e' k = λ h. absurd (ground arith)
find_first-replace_first (b ∷ bs) key e e' k = elim (Bool-cases (same_key b.key key)) [
  | inl t ↦ rw t (λ h.
      let same : b ≡ e = ground arith in
      let kept : b.key ≡ e'.key = ap (λ x. x.key) same ∙ sym k in
      let hit : same_key b.key e'.key ≡ true =
        ap (same_key b.key) (sym kept) ∙ same_key_self b.key in
      let found : same_key e'.key key ≡ true = ap (λ x. same_key x key) (sym kept) ∙ t in
      rw hit (rw found refl))
  | inr f ↦ rw f (λ h.
      let of_key : same_key e'.key key ≡ true =
        ap (λ x. same_key x key) k ∙ find_first-key bs key e h in
      let miss : same_key b.key e'.key ≡ false = elim (Bool-cases (same_key b.key e'.key)) [
        | inl t ↦ absurd (ground (arith, same_key_left b.key e'.key key t, of_key))
        | inr g ↦ g
      ] in
      rw miss (rw f (find_first-replace_first bs key e e' k h)))
]

-- An append through the pointer that `access` gave: the key then finds the buffer with the input
-- behind what it held.
pub write_through-access :
    (m : Manager) (key : Key) (e : Entry) (offset : ℕ) (input : List ℕ)
    → access m key ≡ some e
    → Refines.IsValid e
    → offset ≡ e.max_write_pos
    → offset + length input ≤ e.max_size
    → offset + length input ≤ room e m.pool
    → let r = write_through m e offset input in
      (r.1 ≡ length input)
      × ((e' : Entry) × (access r.0 key ≡ some e')
          × Refines.IsValid e'
          × (contents e' ≡ contents e ++ input)
          × (e'.max_size ≡ e.max_size)
          × (room e' r.0.pool ≡ room e m.pool))
unfolding write_through access
write_through-access m key e offset input found v at_end fits enough =
    let w = write-IsAppended e m.pool offset input v at_end fits enough in
    let e' = (Entry.write e m.pool offset input).0 in
    elim (Bool-cases (key_is_empty key)) [
      | inl t ↦ absurd (ground arith)
      | inr f ↦
          let there : find_first m.buffers key ≡ some e = ground arith in
          (
            w.all_written,
            (
              e',
              rw f (find_first-replace_first m.buffers key e e' w.same_key there),
              w.valid,
              w.extended,
              w.same_size,
              w.same_room,
            ),
          )
    ]
