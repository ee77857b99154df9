-- ===== src/Util/Multiset/Inserted.antt =====
-- multiset.hpp: an emplace in the list of the items.
use uavcan.Base.{
  ℕ, zero, suc, ◌<◌, ◌≡◌, refl, sym, ap, subst, ◌∙◌, inl, inr, true, List, [], ◌∷◌, ◌++◌, Option,
  none, some, set, replicate, Option-cases, arith,
}
use mathlib.Core.List.{append_assoc}
use uavcan.Memory.{allocate}
use uavcan.Util.Multiset.{Multiset, Chunk, fill_slot, fill_free, emplace}
use uavcan.Util.Multiset.Contents.{items_of, contents_of, contents, IsInserted}

module _ {T : Type 0} where
  fill_slot-items :
      (is is' : List (Option T)) (x : T)
      → fill_slot is x ≡ some is'
      → IsInserted x (items_of is) (items_of is')
  unfolding fill_slot
  fill_slot-items [] is' x h = cc
  fill_slot-items (none ∷ is) is' x h = record {
    front = [];
    behind = items_of is;
    was = refl;
    has = ground arith;
  }
  fill_slot-items (some y ∷ is) is' x h = elim (Option-cases (fill_slot is x)) [
    | inl e ↦ absurd (ground arith)
    | inr (rest, e) ↦
        let inner = fill_slot-items is rest x e in
        record {
          front = y ∷ inner.front;
          behind = inner.behind;
          was = ap (λ t. y ∷ t) inner.was;
          has = ground (arith, inner.has);
        }
  ]

  IsInserted-left :
      {x : T} {xs xs' : List T} (ys : List T)
      → IsInserted x xs xs'
      → IsInserted x (xs ++ ys) (xs' ++ ys)
  IsInserted-left ys i = record {
    front = i.front;
    behind = i.behind ++ ys;
    was = ap (λ t. t ++ ys) i.was ∙ append_assoc i.front i.behind ys;
    has = ap (λ t. t ++ ys) i.has ∙ append_assoc i.front _ ys;
  }

  IsInserted-right :
      {x : T} {ys ys' : List T} (xs : List T)
      → IsInserted x ys ys'
      → IsInserted x (xs ++ ys) (xs ++ ys')
  IsInserted-right xs i = record {
    front = xs ++ i.front;
    behind = i.behind;
    was = ap (λ t. xs ++ t) i.was ∙ sym (append_assoc xs i.front i.behind);
    has = ap (λ t. xs ++ t) i.has ∙ sym (append_assoc xs i.front _);
  }

  fill_free-contents :
      (cs cs' : List (Chunk T)) (x : T)
      → fill_free cs x ≡ some cs'
      → IsInserted x (contents_of cs) (contents_of cs')
  unfolding fill_free
  fill_free-contents [] cs' x h = cc
  fill_free-contents (c ∷ cs) cs' x h = elim (Option-cases (fill_slot c.items x)) [
    | inr (is, e) ↦
        let now : cs' ≡ record c { items = is } ∷ cs = ground arith in
        subst (λ t. IsInserted x (contents_of (c ∷ cs)) (contents_of t)) (sym now)
          (IsInserted-left (contents_of cs) (fill_slot-items c.items is x e))
    | inl e ↦ elim (Option-cases (fill_free cs x)) [
      | inl e' ↦ absurd (ground arith)
      | inr (rest, e') ↦
          let now : cs' ≡ c ∷ rest = ground arith in
          subst (λ t. IsInserted x (contents_of (c ∷ cs)) (contents_of t)) (sym now)
            (IsInserted-right (items_of c.items) (fill_free-contents cs rest x e'))
    ]
  ]

  no_items : (n : ℕ) → items_of (replicate {A = Option T} n none) ≡ []
  no_items zero = refl
  no_items (suc n) = no_items n

  first_item :
      (n : ℕ) (x : T) → 0 < n → items_of (set (replicate {A = Option T} n none) 0 (some x)) ≡ x ∷ []
  first_item zero x h = absurd (omega arith)
  first_item (suc n) x h = ap (λ t. x ∷ t) (no_items n)

  -- An emplace that gives a pointer puts one item more into the multiset.
  pub emplace-IsInserted :
      (m : Multiset T) (x : T)
      → 0 < m.num_items
      → (emplace m x).0 ≡ true
      → IsInserted x (contents m) (contents (emplace m x).1)
  unfolding emplace
  emplace-IsInserted m x h ok = elim (Option-cases (fill_free m.chunks x)) [
    | inr (cs, e) ↦ rw (e, emplace) (fill_free-contents m.chunks cs x e)
    | inl e ↦ elim (Option-cases (allocate m.pool m.pool.block_size).0) [
      | inl out ↦ absurd (ground arith)
      | inr (b, got) ↦ record {
        front = [];
        behind = contents m;
        was = refl;
        has = ground (arith, first_item m.num_items x h);
      }
    ]
  ]
