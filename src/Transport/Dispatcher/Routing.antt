-- ===== src/Transport/Dispatcher/Routing.antt =====
-- uc_dispatcher.cpp: the order of the listeners in a registry, and which of them a frame reaches.
use uavcan.Base.{
  ℕ, ◌≤◌, ◌<◌, ◌≡◌, refl, ◌⊎◌, inl, inr, sym, ap, ◌∙◌, Bool, true, false, ◌||◌, List, [], ◌∷◌, ltb,
  ◌==◌, if◌then◌else◌, Bool-cases, ltb→lt, arith,
}
use uavcan.Transport.Receiver.{RxFrame}
use uavcan.Transport.Dispatcher.{
  Listening, has_listener, insert_listener, add_listener, handle_by_listeners,
}

module _ {L W : Type 0} (i : Listening L W) where
  abbrev pub AreAtMost : ℕ → List L → Type 0
  AreAtMost n [] = Unit {0}
  AreAtMost n (p ∷ ps) = (i.id_of p ≤ n) × AreAtMost n ps

  -- The data type ids never rise along the list.
  abbrev pub IsDescending : List L → Type 0
  IsDescending [] = Unit {0}
  IsDescending (p ∷ ps) = AreAtMost (i.id_of p) ps × IsDescending ps

  -- No two listeners of one data type id.
  abbrev pub AreUnique : List L → Type 0
  AreUnique [] = Unit {0}
  AreUnique (p ∷ ps) = (has_listener i (i.id_of p) ps ≡ false) × AreUnique ps

  -- Every listener with the data type id of the frame handles it, in the order of the list.
  unfoldable pub handle_matching : RxFrame → List L → W → List L × W
  handle_matching rx [] w = ([], w)
  handle_matching rx (p ∷ ps) w =
      let (p', w') = if i.id_of p == rx.frame.data_type_id then i.handle rx p w else (p, w) in
      let (rest, w'') = handle_matching rx ps w' in (p' ∷ rest, w'')

  handle_matching-none :
      (rx : RxFrame) (n : ℕ) (ps : List L) (w : W)
      → AreAtMost n ps
      → n < rx.frame.data_type_id
      → handle_matching rx ps w ≡ (ps, w)
  unfolding handle_matching
  handle_matching-none rx n [] w h lt = refl
  handle_matching-none rx n (p ∷ ps) w (le, h) lt =
      let rest = handle_matching-none rx n ps w h lt in
      let other : (i.id_of p == rx.frame.data_type_id) ≡ false = ground arith in
      rw (other, rest) refl

  -- On a registry in order the early end of the loop loses nothing: the frame is handled by every
  -- listener with its data type id, in the order of the list, and by no other.
  pub handle_by_listeners-handle_matching :
      (rx : RxFrame) (ps : List L) (w : W)
      → IsDescending ps
      → handle_by_listeners i rx ps w ≡ handle_matching rx ps w
  unfolding handle_by_listeners handle_matching
  handle_by_listeners-handle_matching rx [] w h = refl
  handle_by_listeners-handle_matching rx (p ∷ ps) w (below, h) =
      let d = rx.frame.data_type_id in
      let handled = i.handle rx p w in
      elim (Bool-cases (i.id_of p == d)) [
        | inl t ↦ rw t (
            ap (λ x. (handled.0 ∷ x.0, x.1))
              (handle_by_listeners-handle_matching rx ps handled.1 h))
        | inr f ↦ elim (Bool-cases (ltb (i.id_of p) d)) [
          | inl t ↦
              rw (f, t)
                (ap (λ x. (p ∷ x.0, x.1))
                  (sym (handle_matching-none rx (i.id_of p) ps w below (ltb→lt (i.id_of p) d t))))
          | inr g ↦
              rw (f, g) (ap (λ x. (p ∷ x.0, x.1)) (handle_by_listeners-handle_matching rx ps w h))
        ]
      ]

  AreAtMost-insert_listener :
      (n : ℕ) (x : L) (ps : List L)
      → AreAtMost n ps
      → i.id_of x ≤ n
      → AreAtMost n (insert_listener i x ps)
  unfolding insert_listener
  AreAtMost-insert_listener n x [] h le = (le, tt)
  AreAtMost-insert_listener n x (p ∷ ps) (le', h) le =
      let rest = AreAtMost-insert_listener n x ps h le in
      elim (Bool-cases (ltb (i.id_of p) (i.id_of x))) [
        | inl t ↦ rw t (le, (le', h))
        | inr f ↦ rw f (le', rest)
      ]

  AreAtMost-weaken : (n m : ℕ) (ps : List L) → AreAtMost n ps → n ≤ m → AreAtMost m ps
  AreAtMost-weaken n m [] h le = tt
  AreAtMost-weaken n m (p ∷ ps) (le', h) le = (omega arith, AreAtMost-weaken n m ps h le)

  IsDescending-insert_listener :
      (x : L) (ps : List L) → IsDescending ps → IsDescending (insert_listener i x ps)
  unfolding insert_listener
  IsDescending-insert_listener x [] h = (tt, tt)
  IsDescending-insert_listener x (p ∷ ps) (below, h) =
      elim (Bool-cases (ltb (i.id_of p) (i.id_of x))) [
        | inl t ↦
            let higher = ltb→lt (i.id_of p) (i.id_of x) t in
            rw t (
              (omega arith, AreAtMost-weaken (i.id_of p) (i.id_of x) ps below (omega arith)),
              (below, h),
            )
        | inr f ↦
            let lower : i.id_of x ≤ i.id_of p = ground arith in
            rw f (
              AreAtMost-insert_listener (i.id_of p) x ps below lower,
              IsDescending-insert_listener x ps h,
            )
      ]

  has_listener-insert_listener :
      (dtid : ℕ) (x : L) (ps : List L)
      → has_listener i dtid (insert_listener i x ps) ≡ (i.id_of x == dtid || has_listener i dtid ps)
  unfolding insert_listener has_listener
  has_listener-insert_listener dtid x [] = refl
  has_listener-insert_listener dtid x (p ∷ ps) =
      let rest = has_listener-insert_listener dtid x ps in ground arith

  AreUnique-insert_listener :
      (x : L) (ps : List L)
      → AreUnique ps
      → has_listener i (i.id_of x) ps ≡ false
      → AreUnique (insert_listener i x ps)
  unfolding insert_listener has_listener
  AreUnique-insert_listener x [] h new = (new, tt)
  AreUnique-insert_listener x (p ∷ ps) (first, h) new =
      let newer : has_listener i (i.id_of x) ps ≡ false = ground arith in
      let apart : (i.id_of x == i.id_of p || has_listener i (i.id_of p) ps) ≡ false =
        ground arith in
      let alone = has_listener-insert_listener (i.id_of p) x ps ∙ apart in
      let behind = AreUnique-insert_listener x ps h newer in
      elim (Bool-cases (ltb (i.id_of p) (i.id_of x))) [
        | inl t ↦ rw t (new, (first, h))
        | inr f ↦ rw f (alone, behind)
      ]

  -- Adding a listener keeps a registry in order, and one whose listeners have different data type
  -- ids, where the mode asks for that; it fails only there, for an id that is taken, and else the
  -- registry has the listener's id and the ids that it had.
  pub add_listener-IsDescending :
      (unique : Bool) (x : L) (ps : List L)
      → IsDescending ps
      → (unique ≡ true → AreUnique ps)
      → let (done, qs) = add_listener i unique x ps in
        IsDescending qs
        × (unique ≡ true → AreUnique qs)
        × (((done ≡ false) × (unique ≡ true) × (has_listener i (i.id_of x) ps ≡ true) × (qs ≡ ps))
            ⊎ ((done ≡ true)
                × ((dtid : ℕ)
                    → has_listener i dtid qs ≡ (i.id_of x == dtid || has_listener i dtid ps))))
  unfolding add_listener
  add_listener-IsDescending unique x ps h distinct =
      let qs = insert_listener i x ps in
      let sorted = IsDescending-insert_listener x ps h in
      let has = λ (dtid : ℕ). has_listener-insert_listener dtid x ps in
      elim (Bool-cases unique) [
        | inl u ↦ elim (Bool-cases (has_listener i (i.id_of x) ps)) [
          | inl t ↦ rw (add_listener, u, t) (h, λ e. distinct u, inl (refl, refl, refl, refl))
          | inr f ↦
              rw (add_listener, u, f)
                (sorted, λ e. AreUnique-insert_listener x ps (distinct u) f, inr (refl, has))
        ]
        | inr n ↦ rw (add_listener, n) (sorted, λ e. absurd (ground arith), inr (refl, has))
      ]
