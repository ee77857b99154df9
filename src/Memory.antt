-- ===== src/Memory.antt =====
-- libuavcan/include/uavcan/dynamic_memory.hpp and libuavcan/src/uc_dynamic_memory.cpp: the pool
-- allocator and the one with a quota. A block is whatever its user keeps in it. A null pointer is
-- never deallocated here, and the lock is not modelled: calls do not overlap.
pub mod Accounting
use uavcan.Base.{
  ℕ, ◌+◌, ◌-◌, Bool, true, false, ◌||◌, List, [], ◌∷◌, Option, none, some, ltb, max, min,
  if◌then◌else◌,
}

-- PoolAllocator: the free list, first block first, and the statistics.
pub record Pool {ℓ} (A : Type ℓ) : Type ℓ where
  pub free_list : List A
  pub block_size : ℕ
  pub used : ℕ
  pub max_used : ℕ

-- LimitedPoolAllocator over a pool.
pub record LimitedPool {ℓ} (A : Type ℓ) : Type ℓ where
  pub base : Pool A
  pub max_blocks : ℕ
  pub used_blocks : ℕ

module _ {ℓ} {A : Type ℓ} where
  -- The constructor on an array of blocks.
  pub init : ℕ → List A → Pool A
  init size blocks = record { free_list = blocks; block_size = size; used = 0; max_used = 0 }

  -- The part of `allocate` below its guard, on the parts of the free list.
  pub take_first : A → List A → Pool A → Option A × Pool A
  take_first b rest p = (
    some b,
    record p { free_list = rest; used = p.used + 1; max_used = max p.max_used (p.used + 1) },
  )

  unfoldable pub allocate : Pool A → ℕ → Option A × Pool A
  unfolding take_first
  allocate p size = elim p.free_list [
    | [] ↦ (none, p)
    | b ∷ rest ↦ if ltb p.block_size size then (none, p) else take_first b rest p
  ]

  unfoldable pub deallocate : Pool A → A → Pool A
  deallocate p b = record p { free_list = b ∷ p.free_list; used = p.used - 1 }

  -- The quota is capped at 0xFFFF.
  unfoldable pub limit : Pool A → ℕ → LimitedPool A
  limit p max_blocks = record { base = p; max_blocks = min max_blocks 0xffff; used_blocks = 0 }

  -- The counter goes up before the pool is asked.
  unfoldable pub limited_allocate : LimitedPool A → ℕ → Option A × LimitedPool A
  limited_allocate l size =
      if ltb l.used_blocks l.max_blocks
      then (let r = allocate l.base size in
          (r.0, record l { base = r.1; used_blocks = l.used_blocks + 1 }))
      else (none, l)

  unfoldable pub limited_deallocate : LimitedPool A → A → LimitedPool A
  limited_deallocate l b = record l {
    base = deallocate l.base b;
    used_blocks = if ltb 0 l.used_blocks then l.used_blocks - 1 else l.used_blocks;
  }
