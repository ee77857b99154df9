-- ===== src/Util/Multiset/Contents.antt =====
-- multiset.hpp: the operations on the list of the items, chunk after chunk.
use uavcan.Base.{
  ℕ, zero, suc, ◌-◌, ◌≡◌, refl, ap, inl, inr, Bool, true, List, [], ◌∷◌, ◌++◌, Option, none, some,
  length, get_elem?, set, length-append, if◌then◌else◌, ltb, Bool-cases, Option-cases, arith,
}
use uavcan.Memory.{Pool}
use uavcan.Util.Multiset.{
  Multiset, Chunk, all_unused, compact_chunks, compact, destroy_first, destroy_first_in,
  remove_first_where, find_item, find_in, find, index_predicate, get_by_index, assign_item,
  used_items, count_items, get_size, assign_in, assign_by_index,
}

minus_suc : (n m : ℕ) → suc n - suc m ≡ n - m
minus_suc n m = omega arith

minus_zero : (n : ℕ) → n ≡ n - 0
minus_zero n = omega arith

module _ {T : Type 0} where
  abbrev pub items_of : List (Option T) → List T
  items_of [] = []
  items_of (none ∷ is) = items_of is
  items_of (some x ∷ is) = x ∷ items_of is

  abbrev pub contents_of : List (Chunk T) → List T
  contents_of [] = []
  contents_of (c ∷ cs) = items_of c.items ++ contents_of cs

  abbrev pub contents : Multiset T → List T
  contents m = contents_of m.chunks

  -- The list without its first item that the predicate holds of; `none` where it has none.
  abbrev pub delete? : (T → Bool) → List T → Option (List T)
  delete? p [] = none
  delete? p (x ∷ xs) =
      let rest = delete? p xs in
      if p x then some xs else elim rest [ some ys ↦ some (x ∷ ys) | none ↦ none ]

  abbrev pub delete_first : (T → Bool) → List T → List T
  delete_first p xs = elim (delete? p xs) [ some ys ↦ ys | none ↦ xs ]

  -- One item more, somewhere in the list.
  pub record IsInserted (x : T) (before after : List T) : Type 0 where
    pub front : List T
    pub behind : List T
    pub was : before ≡ front ++ behind
    pub has : after ≡ front ++ x ∷ behind

  get_elem?-append :
      (xs ys : List T) (n : ℕ)
      → get_elem? (xs ++ ys) n
        ≡ elim (get_elem? xs n) [ some x ↦ some x | none ↦ get_elem? ys (n - length xs) ]
  get_elem?-append [] ys n = ap (get_elem? ys) (omega arith)
  get_elem?-append (x ∷ xs) ys zero = refl
  get_elem?-append (x ∷ xs) ys (suc n) =
      ground (arith, get_elem?-append xs ys n, ap (get_elem? ys) (minus_suc n (length xs)))

  find_item-index :
      (is : List (Option T)) (n : ℕ)
      → find_item index_predicate is n ≡ elim (get_elem? (items_of is) n) [
        | some x ↦ (some x, 0)
        | none ↦ (none, n - length (items_of is))
      ]
  unfolding find_item index_predicate
  find_item-index [] n = ap (λ t. (none, t)) (minus_zero n)
  find_item-index (none ∷ is) n = find_item-index is n
  find_item-index (some x ∷ is) zero = refl
  find_item-index (some x ∷ is) (suc n) =
      ground (arith, find_item-index is n, minus_suc n (length (items_of is)))

  find_in-index :
      (cs : List (Chunk T)) (n : ℕ)
      → (find_in index_predicate cs n).0 ≡ get_elem? (contents_of cs) n
  unfolding find_in
  find_in-index [] n = refl
  find_in-index (c ∷ cs) n = ground (
    arith,
    find_item-index c.items n,
    get_elem?-append (items_of c.items) (contents_of cs) n,
    find_in-index cs (n - length (items_of c.items)),
  )

  pub get_by_index-contents : (m : Multiset T) (n : ℕ) → get_by_index m n ≡ get_elem? (contents m) n
  unfolding get_by_index find
  get_by_index-contents m n = find_in-index m.chunks n

  used_items-length : (is : List (Option T)) → used_items is ≡ length (items_of is)
  unfolding used_items
  used_items-length [] = refl
  used_items-length (none ∷ is) = used_items-length is
  used_items-length (some x ∷ is) = omega (arith, used_items-length is)

  count_items-length : (cs : List (Chunk T)) → count_items cs ≡ length (contents_of cs)
  unfolding count_items
  count_items-length [] = refl
  count_items-length (c ∷ cs) = omega (
    arith,
    used_items-length c.items,
    count_items-length cs,
    length-append (items_of c.items) (contents_of cs),
  )

  pub get_size-contents : (m : Multiset T) → get_size m ≡ length (contents m)
  unfolding get_size
  get_size-contents m = count_items-length m.chunks

  set-append :
      (xs ys : List T) (n : ℕ) (v : T)
      → set (xs ++ ys) n v
        ≡ (if ltb n (length xs) then set xs n v ++ ys else xs ++ set ys (n - length xs) v)
  set-append [] ys n v = ground (arith, ap (λ t. set ys t v) (minus_zero n))
  set-append (x ∷ xs) ys zero v = ground arith
  set-append (x ∷ xs) ys (suc n) v =
      ground (arith, set-append xs ys n v, ap (λ t. set ys t v) (minus_suc n (length xs)))

  assign_item-items :
      (is : List (Option T)) (n : ℕ) (v : T) → items_of (assign_item is n v) ≡ set (items_of is) n v
  unfolding assign_item
  assign_item-items [] n v = refl
  assign_item-items (none ∷ is) n v = assign_item-items is n v
  assign_item-items (some x ∷ is) zero v = refl
  assign_item-items (some x ∷ is) (suc n) v = ap (λ t. x ∷ t) (assign_item-items is n v)

  assign_in-contents :
      (cs : List (Chunk T)) (n : ℕ) (v : T)
      → contents_of (assign_in cs n v) ≡ set (contents_of cs) n v
  unfolding assign_in
  assign_in-contents [] n v = refl
  assign_in-contents (c ∷ cs) n v = ground (
    arith,
    used_items-length c.items,
    assign_item-items c.items n v,
    set-append (items_of c.items) (contents_of cs) n v,
    assign_in-contents cs (n - used_items c.items) v,
  )

  pub assign_by_index-contents :
      (m : Multiset T) (n : ℕ) (v : T) → contents (assign_by_index m n v) ≡ set (contents m) n v
  unfolding assign_by_index
  assign_by_index-contents m n v = assign_in-contents m.chunks n v

  all_unused-items : (is : List (Option T)) → all_unused is ≡ true → items_of is ≡ []
  unfolding all_unused
  all_unused-items [] h = refl
  all_unused-items (none ∷ is) h = all_unused-items is h
  all_unused-items (some x ∷ is) h = cc

  pub compact_chunks-contents :
      (cs : List (Chunk T)) (p : Pool (List ℕ))
      → contents_of (compact_chunks cs p).0 ≡ contents_of cs
  unfolding compact_chunks
  compact_chunks-contents [] p = refl
  compact_chunks-contents (c ∷ cs) p = elim (Bool-cases (all_unused c.items)) [
    | inl t ↦ rw t (rw (all_unused-items c.items t) (compact_chunks-contents cs _))
    | inr f ↦ rw f (ap (λ t. items_of c.items ++ t) (compact_chunks-contents cs _))
  ]

  module _ (p : T → Bool) where
    delete?-append :
        (xs ys : List T)
        → delete? p (xs ++ ys) ≡ elim (delete? p xs) [
          | some zs ↦ some (zs ++ ys)
          | none ↦ elim (delete? p ys) [ some zs ↦ some (xs ++ zs) | none ↦ none ]
        ]
    delete?-append [] ys = elim (Option-cases (delete? p ys)) [
      | inl e ↦ rw e refl
      | inr (zs, e) ↦ rw e refl
    ]
    delete?-append (x ∷ xs) ys = ground (arith, delete?-append xs ys)

    destroy_first-items :
        (is : List (Option T))
        → delete? p (items_of is)
          ≡ elim (destroy_first p is) [ some is' ↦ some (items_of is') | none ↦ none ]
    unfolding destroy_first
    destroy_first-items [] = refl
    destroy_first-items (none ∷ is) = ground (arith, destroy_first-items is)
    destroy_first-items (some x ∷ is) = ground (arith, destroy_first-items is)

    destroy_first_in-contents :
        (cs : List (Chunk T))
        → delete? p (contents_of cs)
          ≡ elim (destroy_first_in p cs) [ some cs' ↦ some (contents_of cs') | none ↦ none ]
    unfolding destroy_first_in
    destroy_first_in-contents [] = refl
    destroy_first_in-contents (c ∷ cs) = ground (
      arith,
      delete?-append (items_of c.items) (contents_of cs),
      destroy_first-items c.items,
      destroy_first_in-contents cs,
    )

    pub remove_first_where-contents :
        (m : Multiset T) → contents (remove_first_where p m) ≡ delete_first p (contents m)
    unfolding remove_first_where compact
    remove_first_where-contents m = elim (Option-cases (destroy_first_in p m.chunks)) [
      | inl e ↦ ground (arith, destroy_first_in-contents m.chunks)
      | inr (cs, e) ↦
          ground (arith, destroy_first_in-contents m.chunks, compact_chunks-contents cs m.pool)
    ]
