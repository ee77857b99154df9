-- ===== src/Util/Multiset/Clear.antt =====
-- multiset.hpp: clear.
use uavcan.Base.{
  ◌≡◌, refl, ap₂, ◌∙◌, inl, inr, true, List, [], ◌∷◌, ◌++◌, Option, none, some, length,
  length-append, ltb, Bool-cases, arith,
}
use uavcan.Util.Multiset.{
  Multiset, Chunk, destroy_where, destroy_where_in, remove_all_where, compact, clear,
}
use uavcan.Util.Multiset.Contents.{items_of, contents_of, contents, compact_chunks-contents}

module _ {T : Type 0} where
  destroy_where-items :
      (is : List (Option T))
      → (items_of (destroy_where (λ _. true) is).0 ≡ [])
        × ((destroy_where (λ _. true) is).1 ≡ length (items_of is))
  unfolding destroy_where
  destroy_where-items [] = (refl, refl)
  destroy_where-items (none ∷ is) = destroy_where-items is
  destroy_where-items (some x ∷ is) =
      let (gone, count) = destroy_where-items is in (gone, omega arith)

  destroy_where_in-contents :
      (cs : List (Chunk T))
      → (contents_of (destroy_where_in (λ _. true) cs).0 ≡ [])
        × ((destroy_where_in (λ _. true) cs).1 ≡ length (contents_of cs))
  unfolding destroy_where_in
  destroy_where_in-contents [] = (refl, refl)
  destroy_where_in-contents (c ∷ cs) =
      let (gone, count) = destroy_where-items c.items in
      let (gone', count') = destroy_where_in-contents cs in
      (
        ap₂ (λ a b. a ++ b) gone gone',
        omega (arith, length-append (items_of c.items) (contents_of cs)),
      )

  no_contents : (xs : List T) → length xs ≡ 0 → xs ≡ []
  no_contents [] h = refl
  no_contents (x ∷ xs) h = absurd (omega arith)

  pub clear-contents : (m : Multiset T) → contents (clear m) ≡ []
  unfolding clear remove_all_where compact
  clear-contents m =
      let (gone, count) = destroy_where_in-contents m.chunks in
      let after = (destroy_where_in (λ (x : T). true) m.chunks).0 in
      elim (Bool-cases (ltb 0 (destroy_where_in (λ (x : T). true) m.chunks).1)) [
        | inl t ↦ rw t (compact_chunks-contents after m.pool ∙ gone)
        | inr f ↦ rw f (no_contents (contents m) (ground arith))
      ]

  pub clear-num_items : (m : Multiset T) → (clear m).num_items ≡ m.num_items
  unfolding clear remove_all_where compact
  clear-num_items m = ground arith
