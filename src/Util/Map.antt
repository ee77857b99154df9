-- ===== src/Util/Map.antt =====
-- Map of libuavcan/include/uavcan/util/map.hpp: groups of slots in pool blocks, newest group first.
-- A slot is `none` where its key is Key(). `num_kv` is KVGroup::NumKV, and the keys that are given
-- are not Key(), as the source asserts.
pub mod Update
use uavcan.Base.{
  ℕ, ◌+◌, Bool, true, false, ◌&&◌, List, [], ◌∷◌, Option, none, some, replicate, set, if◌then◌else◌,
}
use uavcan.Memory.{Pool, allocate, deallocate}

pub record Pair (K V : Type 0) : Type 0 where
  pub key : K
  pub value : V

-- A KVGroup and the block it stands in.
pub record Group (K V : Type 0) : Type 0 where
  pub storage : List ℕ
  pub kvs : List (Option (Pair K V))

pub record Map (K V : Type 0) : Type 0 where
  pub groups : List (Group K V)
  pub pool : Pool (List ℕ)
  pub num_kv : ℕ

module _ {K V : Type 0} (same : K → K → Bool) where
  unfoldable pub matches : K → Option (Pair K V) → Bool
  matches key none = false
  matches key (some kv) = same key kv.key

  -- The value that KVGroup::find points to.
  unfoldable pub find_kv : List (Option (Pair K V)) → K → Option V
  find_kv [] key = none
  find_kv (none ∷ kvs) key = find_kv kvs key
  find_kv (some kv ∷ kvs) key = if same key kv.key then some kv.value else find_kv kvs key

  unfoldable pub find_key : List (Group K V) → K → Option V
  find_key [] key = none
  find_key (g ∷ gs) key = elim (find_kv g.kvs key) [ some v ↦ some v | none ↦ find_key gs key ]

  unfoldable pub access : Map K V → K → Option V
  access m key = find_key m.groups key

  -- The assignment through what findKey gave: the first slot that `hit` holds of becomes `to`;
  -- `none` where there is no such slot.
  unfoldable pub assign_kv :
      (Option (Pair K V) → Bool)
      → Option (Pair K V)
      → List (Option (Pair K V))
      → Option (List (Option (Pair K V)))
  assign_kv hit to [] = none
  assign_kv hit to (kv ∷ kvs) =
      let rest = assign_kv hit to kvs in
      if hit kv then some (to ∷ kvs) else elim rest [ some kvs' ↦ some (kv ∷ kvs') | none ↦ none ]

  unfoldable pub assign_key :
      (Option (Pair K V) → Bool) → Option (Pair K V) → List (Group K V) → Option (List (Group K V))
  assign_key hit to [] = none
  assign_key hit to (g ∷ gs) =
      let rest = assign_key hit to gs in
      elim (assign_kv hit to g.kvs) [
        | some kvs ↦ some (record g { kvs = kvs } ∷ gs)
        | none ↦ elim rest [ some gs' ↦ some (g ∷ gs') | none ↦ none ]
      ]

  unfoldable pub is_free : Option (Pair K V) → Bool
  is_free none = true
  is_free (some kv) = false

  unfoldable pub all_free : List (Option (Pair K V)) → Bool
  all_free [] = true
  all_free (kv ∷ kvs) = is_free kv && all_free kvs

  -- The loop of compact.
  unfoldable pub compact_groups :
      List (Group K V) → Pool (List ℕ) → List (Group K V) × Pool (List ℕ)
  compact_groups [] p = ([], p)
  compact_groups (g ∷ gs) p =
      let unused = all_free g.kvs in
      let (kept, p') = compact_groups gs (if unused then deallocate p g.storage else p) in
      (if unused then kept else g ∷ kept, p')

  unfoldable pub compact : Map K V → Map K V
  compact m = let (kept, p) = compact_groups m.groups m.pool in record m { groups = kept; pool = p }

  unfoldable pub remove : Map K V → K → Map K V
  remove m key = elim (assign_key (matches key) none m.groups) [
    | none ↦ m
    | some gs ↦ compact (record m { groups = gs })
  ]

  -- insert; the result is whether the pointer is not null.
  unfoldable pub insert : Map K V → K → V → Bool × Map K V
  insert m key value =
      let cleared = remove m key in
      let pair : Option (Pair K V) = some (record { key = key; value = value }) in
      elim (assign_key is_free pair cleared.groups) [
        | some gs ↦ (true, record cleared { groups = gs })
        | none ↦
            let (got, p) = allocate cleared.pool cleared.pool.block_size in
            elim got [
              | none ↦ (false, record cleared { pool = p })
              | some b ↦
                  let g : Group K V = record {
                    storage = b;
                    kvs = set (replicate cleared.num_kv none) 0 pair;
                  } in
                  (true, record cleared { groups = g ∷ cleared.groups; pool = p })
            ]
      ]

  -- A change through the pointer that `access` or `insert` gave.
  unfoldable pub update : Map K V → K → V → Map K V
  update m key value =
      elim (assign_key (matches key) (some (record { key = key; value = value })) m.groups) [
        | none ↦ m
        | some gs ↦ record m { groups = gs }
      ]

  module _ {S : Type 0} (predicate : Pair K V → S → Bool × S) where
    -- The loops of removeAllWhere; the predicate keeps a state of its own. The count of those
    -- removed is the last result.
    unfoldable pub clear_where : List (Option (Pair K V)) → S → List (Option (Pair K V)) × S × ℕ
    clear_where [] s = ([], s, 0)
    clear_where (none ∷ kvs) s = let (rest, s', n) = clear_where kvs s in (none ∷ rest, s', n)
    clear_where (some kv ∷ kvs) s =
        let (hit, s') = predicate kv s in
        let (rest, s'', n) = clear_where kvs s' in
        (if hit then (none ∷ rest, s'', n + 1) else (some kv ∷ rest, s'', n))

    unfoldable pub clear_groups : List (Group K V) → S → List (Group K V) × S × ℕ
    clear_groups [] s = ([], s, 0)
    clear_groups (g ∷ gs) s =
        let (kvs, s', n) = clear_where g.kvs s in
        let (rest, s'', n') = clear_groups gs s' in (record g { kvs = kvs } ∷ rest, s'', n + n')

    -- The groups, the predicate's state and the count, before compact.
    unfoldable pub remove_where : Map K V → S → Map K V × S × ℕ
    remove_where m s =
        let (gs, s', n) = clear_groups m.groups s in (record m { groups = gs }, s', n)

  -- getSize, group after group.
  unfoldable pub used_slots : List (Option (Pair K V)) → ℕ
  used_slots [] = 0
  used_slots (none ∷ kvs) = used_slots kvs
  used_slots (some kv ∷ kvs) = used_slots kvs + 1

  unfoldable pub get_size : List (Group K V) → ℕ
  get_size [] = 0
  get_size (g ∷ gs) = used_slots g.kvs + get_size gs
