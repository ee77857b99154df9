-- ===== src/Util/LinkedList.antt =====
-- LinkedListRoot of libuavcan/include/uavcan/util/linked_list.hpp, as the list of its nodes; `same`
-- is equality of pointers.
use uavcan.Util.Map.Update.{IsSame}
use uavcan.Base.{
  ◌≡◌, refl, inl, inr, ap, sym, subst, ◌∙◌, Bool, true, false, ◌||◌, List, [], ◌∷◌, if◌then◌else◌,
  Bool-cases, arith,
}

module _ {T : Type 0} (same : T → T → Bool) where
  -- remove; only the first occurrence goes.
  unfoldable pub remove_node : T → List T → List T
  remove_node node [] = []
  remove_node node (p ∷ ps) = let rest = remove_node node ps in if same p node then ps else p ∷ rest

  -- insert; a node that is in the list goes to its beginning.
  unfoldable pub insert_node : T → List T → List T
  insert_node node ps = node ∷ remove_node node ps

  unfoldable pub has_node : T → List T → Bool
  has_node node [] = false
  has_node node (p ∷ ps) = same p node || has_node node ps

  -- No node is in the list twice.
  abbrev pub IsSimple : List T → Type 0
  IsSimple [] = Unit {0}
  IsSimple (p ∷ ps) = (has_node p ps ≡ false) × IsSimple ps

  kept_absent :
      (x node : T) (ps : List T) → has_node x ps ≡ false → has_node x (remove_node node ps) ≡ false
  unfolding has_node remove_node
  kept_absent x node [] h = refl
  kept_absent x node (p ∷ ps) h = let rest = kept_absent x node ps in ground arith

  -- What removing a node does: the node is not in the list, every other is where it was, and no node
  -- is there twice.
  abbrev pub IsRemoved : T → List T → List T → Type 0
  IsRemoved node ps qs =
      (has_node node qs ≡ false)
      × ((x : T) → same node x ≡ false → has_node x qs ≡ has_node x ps)
      × IsSimple qs

  pub remove_node-IsRemoved :
      (node : T) (ps : List T) → IsSame same → IsSimple ps → IsRemoved node ps (remove_node node ps)
  unfolding remove_node has_node
  remove_node-IsRemoved node [] e h = (refl, λ x apart. refl, tt)
  remove_node-IsRemoved node (p ∷ ps) e (first, h) =
      let (gone, others, simple) = remove_node-IsRemoved node ps e h in
      elim (Bool-cases (same p node)) [
        | inl t ↦
            let here : p ≡ node = e.1 p node t in
            rw (remove_node, t)
              (
                subst (λ n. has_node n ps ≡ false) here first,
                λ x apart.
                    let other : same p x ≡ false = subst (λ n. same n x ≡ false) (sym here) apart in
                    ap (λ t. t || has_node x ps) (sym other),
                h,
              )
        | inr f ↦
            rw (remove_node, f)
              (
                rw (has_node, f) gone,
                λ x apart. ap (λ t. same p x || t) (others x apart),
                (kept_absent p node ps first, simple),
              )
      ]

  -- Inserting a node keeps it from being in the list twice, also where it is there already: it is at
  -- the beginning, and the list has it, and every other node that it had and no more.
  pub insert_node-IsSimple :
      (node : T) (ps : List T)
      → IsSame same
      → IsSimple ps
      → IsSimple (insert_node node ps)
        × (has_node node (insert_node node ps) ≡ true)
        × ((x : T) → same node x ≡ false → has_node x (insert_node node ps) ≡ has_node x ps)
  unfolding insert_node has_node
  insert_node-IsSimple node ps e h =
      let (gone, others, simple) = remove_node-IsRemoved node ps e h in
      (
        (gone, simple),
        rw (e.0 node) refl,
        λ x apart. ap (λ t. t || has_node x (remove_node node ps)) apart ∙ others x apart,
      )
