-- ===== src/Util/Multiset.antt =====
-- Multiset of libuavcan/include/uavcan/util/multiset.hpp: chunks of slots in pool blocks, newest
-- chunk first. A slot is `none` where it is not constructed. `num_items` is Chunk::NumItems.
pub mod Contents
pub mod Inserted
pub mod Clear
use uavcan.Base.{
  ℕ, zero, suc, ◌+◌, ◌-◌, Bool, true, false, ◌&&◌, List, [], ◌∷◌, Option, none, some, replicate,
  set, ltb, ◌==◌, if◌then◌else◌,
}
use uavcan.Memory.{Pool, allocate, deallocate}

-- A Chunk and the block it stands in.
pub record Chunk (T : Type 0) : Type 0 where
  pub storage : List ℕ
  pub items : List (Option T)

pub record Multiset (T : Type 0) : Type 0 where
  pub chunks : List (Chunk T)
  pub pool : Pool (List ℕ)
  pub num_items : ℕ

module _ {T : Type 0} where
  -- The first free slot of a chunk becomes `x`; `none` where findFreeSlot gives no slot.
  unfoldable pub fill_slot : List (Option T) → T → Option (List (Option T))
  fill_slot [] x = none
  fill_slot (none ∷ is) x = some (some x ∷ is)
  fill_slot (some y ∷ is) x = elim (fill_slot is x) [ some is' ↦ some (some y ∷ is') | none ↦ none ]

  -- The search of findOrCreateFreeSlot.
  unfoldable pub fill_free : List (Chunk T) → T → Option (List (Chunk T))
  fill_free [] x = none
  fill_free (c ∷ cs) x =
      let rest = fill_free cs x in
      elim (fill_slot c.items x) [
        | some is ↦ some (record c { items = is } ∷ cs)
        | none ↦ elim rest [ some cs' ↦ some (c ∷ cs') | none ↦ none ]
      ]

  -- emplace of a copy of `x`; the result is whether the pointer is not null.
  unfoldable pub emplace : Multiset T → T → Bool × Multiset T
  emplace m x = elim (fill_free m.chunks x) [
    | some cs ↦ (true, record m { chunks = cs })
    | none ↦
        let (got, p) = allocate m.pool m.pool.block_size in
        elim got [
          | none ↦ (false, record m { pool = p })
          | some b ↦
              let c : Chunk T = record {
                storage = b;
                items = set (replicate m.num_items none) 0 (some x);
              } in
              (true, record m { chunks = c ∷ m.chunks; pool = p })
        ]
  ]

  unfoldable pub all_unused : List (Option T) → Bool
  all_unused [] = true
  all_unused (none ∷ is) = all_unused is
  all_unused (some x ∷ is) = false

  -- The loop of compact.
  unfoldable pub compact_chunks : List (Chunk T) → Pool (List ℕ) → List (Chunk T) × Pool (List ℕ)
  compact_chunks [] p = ([], p)
  compact_chunks (c ∷ cs) p =
      let unused = all_unused c.items in
      let (kept, p') = compact_chunks cs (if unused then deallocate p c.storage else p) in
      (if unused then kept else c ∷ kept, p')

  unfoldable pub compact : Multiset T → Multiset T
  compact m = let (kept, p) = compact_chunks m.chunks m.pool in record m { chunks = kept; pool = p }

  module _ (predicate : T → Bool) where
    -- removeWhere with RemoveOne; `none` where nothing is removed, and then compact is not called.
    unfoldable pub destroy_first : List (Option T) → Option (List (Option T))
    destroy_first [] = none
    destroy_first (none ∷ is) = elim (destroy_first is) [
      | some is' ↦ some (none ∷ is')
      | none ↦ none
    ]
    destroy_first (some x ∷ is) =
        let rest = destroy_first is in
        if predicate x
        then some (none ∷ is)
        else elim rest [ some is' ↦ some (some x ∷ is') | none ↦ none ]

    unfoldable pub destroy_first_in : List (Chunk T) → Option (List (Chunk T))
    destroy_first_in [] = none
    destroy_first_in (c ∷ cs) =
        let rest = destroy_first_in cs in
        elim (destroy_first c.items) [
          | some is ↦ some (record c { items = is } ∷ cs)
          | none ↦ elim rest [ some cs' ↦ some (c ∷ cs') | none ↦ none ]
        ]

    unfoldable pub remove_first_where : Multiset T → Multiset T
    remove_first_where m = elim (destroy_first_in m.chunks) [
      | none ↦ m
      | some cs ↦ compact (record m { chunks = cs })
    ]

    -- removeWhere with RemoveAll: the slots and the number of items removed.
    unfoldable pub destroy_where : List (Option T) → List (Option T) × ℕ
    destroy_where [] = ([], 0)
    destroy_where (none ∷ is) = let (rest, n) = destroy_where is in (none ∷ rest, n)
    destroy_where (some x ∷ is) =
        let (rest, n) = destroy_where is in
        if predicate x then (none ∷ rest, n + 1) else (some x ∷ rest, n)

    unfoldable pub destroy_where_in : List (Chunk T) → List (Chunk T) × ℕ
    destroy_where_in [] = ([], 0)
    destroy_where_in (c ∷ cs) =
        let (is, n) = destroy_where c.items in
        let (rest, n') = destroy_where_in cs in (record c { items = is } ∷ rest, n + n')

    unfoldable pub remove_all_where : Multiset T → Multiset T
    remove_all_where m =
        let (cs, n) = destroy_where_in m.chunks in
        if ltb 0 n then compact (record m { chunks = cs }) else m

  unfoldable pub clear : Multiset T → Multiset T
  clear m = remove_all_where (λ _. true) m

  module _ {S : Type 0} (predicate : T → S → Bool × S) where
    -- find; the predicate keeps a state of its own.
    unfoldable pub find_item : List (Option T) → S → Option T × S
    find_item [] s = (none, s)
    find_item (none ∷ is) s = find_item is s
    find_item (some x ∷ is) s =
        let (hit, s') = predicate x s in
        let rest = find_item is s' in if hit then (some x, s') else rest

    unfoldable pub find_in : List (Chunk T) → S → Option T × S
    find_in [] s = (none, s)
    find_in (c ∷ cs) s =
        let (found, s') = find_item c.items s in
        let rest = find_in cs s' in elim found [ some x ↦ (some x, s') | none ↦ rest ]

    unfoldable pub find : Multiset T → S → Option T
    find m s = (find_in m.chunks s).0

  -- IndexPredicate; its counter is not read again after it was 0.
  unfoldable pub index_predicate : T → ℕ → Bool × ℕ
  index_predicate x zero = (true, zero)
  index_predicate x (suc index) = (false, index)

  unfoldable pub get_by_index : Multiset T → ℕ → Option T
  get_by_index m index = find index_predicate m index

  -- An assignment through the pointer that getByIndex gives; `none` where it gives none.
  unfoldable pub assign_item : List (Option T) → ℕ → T → List (Option T)
  assign_item [] index x = []
  assign_item (none ∷ is) index x = none ∷ assign_item is index x
  assign_item (some y ∷ is) zero x = some x ∷ is
  assign_item (some y ∷ is) (suc index) x = some y ∷ assign_item is index x

  -- getSize, chunk after chunk.
  unfoldable pub used_items : List (Option T) → ℕ
  used_items [] = 0
  used_items (none ∷ is) = used_items is
  used_items (some x ∷ is) = used_items is + 1

  unfoldable pub count_items : List (Chunk T) → ℕ
  count_items [] = 0
  count_items (c ∷ cs) = used_items c.items + count_items cs

  unfoldable pub get_size : Multiset T → ℕ
  get_size m = count_items m.chunks

  unfoldable pub assign_in : List (Chunk T) → ℕ → T → List (Chunk T)
  assign_in [] index x = []
  assign_in (c ∷ cs) index x =
      let rest = assign_in cs (index - used_items c.items) x in
      if ltb index (used_items c.items)
      then record c { items = assign_item c.items index x } ∷ cs
      else c ∷ rest

  unfoldable pub assign_by_index : Multiset T → ℕ → T → Multiset T
  assign_by_index m index x = record m { chunks = assign_in m.chunks index x }
