-- ===== src/NodeIdServer/Log/View.antt =====
-- distributed/log.hpp: the log as the list of its entries up to the last index, and what the
-- operations do to that list, for every storage.
use uavcan.Base.{
  ℕ, zero, suc, ◌+◌, ◌≤◌, ◌<◌, ◌≡◌, refl, ◌≢◌, ◌⊎◌, inl, inr, sym, ap, ◌∙◌, List, [], ◌∷◌, ◌++◌,
  length, take, set, min, take-take, length-set, arith,
}
use uavcan.NodeIdServer.{ok, LogEntry}
use uavcan.NodeIdServer.Storage.{Backend}
use uavcan.NodeIdServer.Log.{Log, capacity, append, remove_from}

-- The array has its full length, and the last index is one of it.
abbrev pub IsValid : {S : Type 0} → Log S → Type 0
IsValid l = (length l.entries ≡ capacity) × (l.last_index < capacity)

abbrev pub view : {S : Type 0} → Log S → List LogEntry
view l = take (l.last_index + 1) l.entries

take-set {ℓ} :
    {A : Type ℓ}
    → (m n : ℕ) (xs : List A) (x : A) → m ≡ n + 1
    → n < length xs
    → take m (set xs n x) ≡ take n xs ++ (x ∷ [])
take-set zero n xs x e h = absurd (omega arith)
take-set (suc m) n [] x e h = absurd (omega arith)
take-set (suc zero) zero (y ∷ xs) x e h = refl
take-set (suc (suc m)) zero (y ∷ xs) x e h = absurd (omega arith)
take-set (suc m) (suc n) (y ∷ xs) x e h = ap (◌∷◌ y) (take-set m n xs x (omega arith) (omega arith))

-- The view after a change of index and array.
pub view_changed :
    {S : Type 0}
    → (l' : Log S) (n : ℕ) (xs : List LogEntry) → l'.last_index + 1 ≡ n
    → l'.entries ≡ xs
    → view l' ≡ take n xs
view_changed l' n xs e f = ap (λ m. take m l'.entries) e ∙ ap (λ es. take n es) f

module _ {S : Type 0} (b : Backend S) where
  append_cases :
      (l : Log S) (x : LogEntry)
      → IsValid l
      → let (res, l') = append b l x in
        ((res ≡ ok)
          × (l.last_index + 1 < capacity)
          × (l'.last_index ≡ l.last_index + 1)
          × (l'.entries ≡ set l.entries (l.last_index + 1) x))
        ⊎ ((res ≢ ok) × (l'.last_index ≡ l.last_index) × (l'.entries ≡ l.entries))
  unfolding append
  append_cases l x h = ground arith

  pub append-view :
      (l : Log S) (x : LogEntry)
      → IsValid l
      → let (res, l') = append b l x in
        IsValid l'
        × (((res ≡ ok) × (view l' ≡ view l ++ (x ∷ []))) ⊎ ((res ≢ ok) × (view l' ≡ view l)))
  append-view l x h =
      let l' = (append b l x).1 in
      let next = l.last_index + 1 in
      let kept = length-set l.entries next x in
      elim (append_cases l x h) [
        | inl (e, room, i, es) ↦
            let full : length l'.entries ≡ capacity = ap length es ∙ kept ∙ h.0 in
            (
              (full, omega arith),
              inl (
                e,
                view_changed l' (next + 1) (set l.entries next x) (omega arith) es
                    ∙ take-set (next + 1) next l.entries x refl (omega arith),
              ),
            )
        | inr (e, i, es) ↦
            let full : length l'.entries ≡ capacity = ap length es ∙ h.0 in
            ((full, omega arith), inr (e, view_changed l' next l.entries (omega arith) es))
      ]

  remove_from_cases :
      (l : Log S) (index : ℕ)
      → l.last_index < capacity
      → let (res, l') = remove_from b l index in
        (l'.entries ≡ l.entries)
        × (((res ≡ ok) × (l'.last_index + 1 ≡ index) × (index < capacity))
            ⊎ ((res ≢ ok) × (l'.last_index ≡ l.last_index)))
  unfolding remove_from
  remove_from_cases l index h = ground arith

  pub remove_from-view :
      (l : Log S) (index : ℕ)
      → IsValid l
      → index ≤ l.last_index + 1
      → let (res, l') = remove_from b l index in
        IsValid l'
        × (((res ≡ ok) × (view l' ≡ take index (view l))) ⊎ ((res ≢ ok) × (view l' ≡ view l)))
  remove_from-view l index h le =
      let (es, cases) = remove_from_cases l index h.1 in
      let l' = (remove_from b l index).1 in
      let full : length l'.entries ≡ capacity = ap length es ∙ h.0 in
      let shorter : index ≡ min index (l.last_index + 1) = omega arith in
      elim cases [
        | inl (e, i, lt) ↦ (
          (full, omega arith),
          inl (
            e,
            view_changed l' index l.entries i es
                ∙ ap (λ n. take n l.entries) shorter
                ∙ sym (take-take index (l.last_index + 1) l.entries),
          ),
        )
        | inr (e, i) ↦ (
          (full, omega arith),
          inr (e, view_changed l' (l.last_index + 1) l.entries (omega arith) es),
        )
      ]
