-- ===== src/Transport/TransferBuffer/Manager/Keys.antt =====
-- The manager keeps at most one buffer for each key, which is what makes the first one found the
-- right one.
use uavcan.Base.{
  Option-cases, Bool, sym, ◌≡◌, refl, ◌∙◌, ap, arith, true, false, List, [], ◌∷◌, none, some, ◌==◌,
  if◌then◌else◌, Bool-cases, inl, inr, ==_self, ap₂, ◌&&◌,
}
use uavcan.Transport.Transfer.{
  TransferType, service_response, service_request, message_broadcast, invalid, same_type,
}
use uavcan.Transport.TransferBuffer.Entry.{Entry, Key, same_key, key_is_empty}
use uavcan.Transport.TransferBuffer.Entry
use uavcan.Transport.TransferBuffer.Entry.{instantiate}
use uavcan.Transport.TransferBuffer.Manager.{
  Manager, access, remove, create, find_first, unlink_first,
}

-- No entry of the list has the key.
unfoldable pub Absent : Key → List Entry → Type 0
Absent key bs = find_first bs key ≡ none

unfoldable pub Distinct : List Entry → Type 0
Distinct [] = Unit {0}
Distinct (b ∷ bs) = Absent b.key bs × Distinct bs

same_type→≡ : (a b : TransferType) → same_type a b ≡ true → a ≡ b
same_type→≡ a b h = ground arith

same_type_self : (a : TransferType) → same_type a a ≡ true
same_type_self service_response = refl
same_type_self service_request = refl
same_type_self message_broadcast = refl
same_type_self invalid = refl

pub same_key_self : (k : Key) → same_key k k ≡ true
same_key_self k = rw (==_self k.node_id) (same_type_self k.transfer_type)

pub same_key_left : (a b c : Key) → same_key a b ≡ true → same_key a c ≡ same_key b c
same_key_left a b c h =
    let id : a.node_id ≡ b.node_id = ground arith in
    let type : same_type a.transfer_type b.transfer_type ≡ true = ground arith in
    ap₂ (λ n t. n == c.node_id && same_type t c.transfer_type) id
      (same_type→≡ a.transfer_type b.transfer_type type)

same_key-false : (a b c : Key) → same_key a b ≡ true → same_key b c ≡ false → same_key a c ≡ false
same_key-false a b c h k = same_key_left a b c h ∙ k

find_first-same :
    (bs : List Entry) (a b : Key) → same_key a b ≡ true → find_first bs a ≡ find_first bs b
unfolding find_first
find_first-same [] a b h = refl
find_first-same (x ∷ bs) a b h =
    let id : a.node_id ≡ b.node_id = ground arith in
    let type : same_type a.transfer_type b.transfer_type ≡ true = ground arith in
    let test : same_key x.key a ≡ same_key x.key b =
      ap₂ (λ n t. x.key.node_id == n && same_type x.key.transfer_type t) id
        (same_type→≡ a.transfer_type b.transfer_type type) in
    ap₂ (λ (t : Bool) r. if t then some x else r) test (find_first-same bs a b h)

-- Unlinking the buffer of one key leaves the others to be found.
find_first-unlink_other :
    (bs : List Entry) (key other : Key)
    → same_key key other ≡ false
    → find_first (unlink_first bs key) other ≡ find_first bs other
unfolding find_first unlink_first
find_first-unlink_other [] key other h = refl
find_first-unlink_other (b ∷ bs) key other h = elim (Bool-cases (same_key b.key key)) [
  | inl t ↦ let miss = same_key-false b.key key other t h in rw (t, miss) refl
  | inr f ↦ rw f (
      ap (λ x. if same_key b.key other then some b else x) (find_first-unlink_other bs key other h))
]

-- A key that no entry has stays absent.
unlink_first-Absent : (bs : List Entry) (key x : Key) → Absent x bs → Absent x (unlink_first bs key)
unfolding Absent find_first unlink_first
unlink_first-Absent [] key x = λ h. refl
unlink_first-Absent (b ∷ bs) key x = elim (Bool-cases (same_key b.key x)) [
  | inl t ↦ rw t (λ h. absurd (ground arith))
  | inr f ↦ elim (Bool-cases (same_key b.key key)) [
    | inl k ↦ rw (f, k) (λ h. h)
    | inr k ↦ rw (f, k) (rw f (λ h. unlink_first-Absent bs key x h))
  ]
]

-- Once its first entry is unlinked, a list of distinct keys has no other entry of that key.
find_first-unlink_same :
    (bs : List Entry) (key : Key) → Distinct bs → find_first (unlink_first bs key) key ≡ none
unfolding Distinct Absent find_first unlink_first
find_first-unlink_same [] key d = refl
find_first-unlink_same (b ∷ bs) key d = elim (Bool-cases (same_key b.key key)) [
  | inl t ↦ rw t (sym (find_first-same bs b.key key t) ∙ d.0)
  | inr f ↦ rw f (rw f (find_first-unlink_same bs key d.1))
]

unlink_first-Distinct : (bs : List Entry) (key : Key) → Distinct bs → Distinct (unlink_first bs key)
unfolding Distinct Absent find_first unlink_first
unlink_first-Distinct [] key d = tt
unlink_first-Distinct (b ∷ bs) key d = elim (Bool-cases (same_key b.key key)) [
  | inl t ↦ rw t d.1
  | inr f ↦ rw f (unlink_first-Absent bs key b.key d.0, unlink_first-Distinct bs key d.1)
]

-- `remove` of a key leaves no buffer of that key, the buffers of all other keys, and no two buffers
-- of one key.
pub remove-access :
    (m : Manager) (key other : Key)
    → Distinct m.buffers
    → same_key key other ≡ false
    → (find_first (remove m key).buffers key ≡ none)
      × (access (remove m key) other ≡ access m other)
      × Distinct (remove m key).buffers
unfolding access remove
remove-access m key other d differ = elim (Option-cases (find_first m.buffers key)) [
  | inl e ↦ rw (remove, e) (e, refl, d)
  | inr (b, e) ↦
      rw (remove, e)
        (
          find_first-unlink_same m.buffers key d,
          ap (λ x. if key_is_empty other then none else x)
              (find_first-unlink_other m.buffers key other differ),
          unlink_first-Distinct m.buffers key d,
        )
]

-- The buffers after `create` put a fresh one in front.
fresh_in_front :
    (bs : List Entry) (fresh : Entry) (key other : Key)
    → fresh.key ≡ key
    → Distinct bs
    → find_first bs key ≡ none
    → same_key key other ≡ false
    → (find_first (fresh ∷ bs) key ≡ some fresh)
      × (find_first (fresh ∷ bs) other ≡ find_first bs other)
      × Distinct (fresh ∷ bs)
unfolding find_first Distinct Absent
fresh_in_front bs fresh key other e d absent differ =
    let hit : same_key fresh.key key ≡ true = ap (λ k. same_key k key) e ∙ same_key_self key in
    let miss : same_key fresh.key other ≡ false = ap (λ k. same_key k other) e ∙ differ in
    (rw hit refl, rw miss refl, (ap (find_first bs) e ∙ absent, d))

-- A buffer that `create` gives is empty and is the one that its key now finds; all other keys find
-- what they found before, and no key has two buffers.
pub create-access :
    (m : Manager) (key other : Key) (e : Entry)
    → Distinct m.buffers
    → same_key key other ≡ false
    → (create m key).0 ≡ some e
    → (access (create m key).1 key ≡ some e)
      × (access (create m key).1 other ≡ access m other)
      × Distinct (create m key).1.buffers
      × (e.blocks ≡ [])
      × (e.max_write_pos ≡ 0)
unfolding access create Entry.reset
create-access m key other e d differ = elim (Bool-cases (key_is_empty key)) [
  | inl empty ↦ rw (create, empty) (λ h. absurd (ground arith))
  | inr usable ↦
      let cleared = remove m key in
      elim (Option-cases (instantiate cleared.pool cleared.max_buf_size).0) [
        | inl none_left ↦ rw (create, usable, none_left) (λ h. absurd (ground arith))
        | inr (made, got) ↦
            let after = remove-access m key other d differ in
            let p = (instantiate cleared.pool cleared.max_buf_size).1 in
            let fresh = (Entry.reset made key p).0 in
            let front =
              fresh_in_front cleared.buffers fresh key other refl after.2 after.0 differ in
            rw (create, usable, got)
              (λ h.
                let same : fresh ≡ e = ground arith in
                (
                  front.0 ∙ ap some same,
                  ap (λ x. if key_is_empty other then none else x) front.1 ∙ after.1,
                  front.2,
                  ap (λ x. x.blocks) (sym same),
                  ap (λ x. x.max_write_pos) (sym same),
                ))
      ]
]
