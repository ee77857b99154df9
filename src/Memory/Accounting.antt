-- ===== src/Memory/Accounting.antt =====
-- The pool counts its blocks; the quota drifts.
use uavcan.Base.{
  ℕ, zero, suc, ◌+◌, ◌≤◌, ◌<◌, ◌≡◌, refl, ◌⊎◌, List, [], ◌∷◌, none, some, arith, length, ltb, false,
  max,
}
use uavcan.Memory.{Pool, LimitedPool, init, allocate, deallocate, limited_allocate}

-- `blocks` is NumBlocks.
pub record IsCounted {ℓ} {A : Type ℓ} (blocks : ℕ) (p : Pool A) : Type 0 where
  pub total : p.used + length p.free_list ≡ blocks
  pub peak : p.used ≤ p.max_used
  pub peak-le : p.max_used ≤ blocks

module _ {ℓ} {A : Type ℓ} where
  pub init-IsCounted : (size : ℕ) (blocks : List A) → IsCounted (length blocks) (init size blocks)
  unfolding init
  init-IsCounted size blocks = record {
    total = omega arith;
    peak = omega arith;
    peak-le = omega arith;
  }

  pub allocate-empty : (p : Pool A) (size : ℕ) → p.free_list ≡ [] → allocate p size ≡ (none, p)
  unfolding allocate
  allocate-empty p size e = ground arith

  pub allocate-cons :
      (p : Pool A) (b : A) (rest : List A)
      → p.free_list ≡ b ∷ rest
      → (q : Pool A) × (allocate p p.block_size ≡ (some b, q))
        × (q.free_list ≡ rest)
        × (q.block_size ≡ p.block_size)
  unfolding allocate
  allocate-cons p b rest e =
      let size_fits : ltb p.block_size p.block_size ≡ false = ground arith in
      (
        record p { free_list = rest; used = p.used + 1; max_used = max p.max_used (p.used + 1) },
        ground arith,
        refl,
        refl,
      )

  -- Allocation keeps the count of used and free blocks and a peak between the two bounds, and so
  -- does giving back a block while one is in use; the peak never falls.
  pub allocate-IsCounted :
      (n size : ℕ) (p : Pool A)
      → IsCounted n p
      → IsCounted n (allocate p size).1 × (p.max_used ≤ (allocate p size).1.max_used)
  unfolding allocate
  allocate-IsCounted n size p h = ground arith

  pub deallocate-IsCounted :
      (n : ℕ) (p : Pool A) (b : A) → IsCounted n p → 0 < p.used → IsCounted n (deallocate p b)
  unfolding deallocate
  deallocate-IsCounted n p b h pos = ground arith

  -- A block that is given back is the next one to be had.
  pub allocate-deallocate :
      (p : Pool A) (b : A) (size : ℕ)
      → size ≤ p.block_size
      → (allocate (deallocate p b) size).0 ≡ some b
  unfolding allocate deallocate
  allocate-deallocate p b size h = ground arith

  -- `n` calls of LimitedPoolAllocator::allocate, whatever they return.
  pub attempts : ℕ → ℕ → LimitedPool A → LimitedPool A
  attempts zero size l = l
  attempts (suc n) size l = attempts n size (limited_allocate l size).1

  empty_attempt :
      (l : LimitedPool A) (size : ℕ)
      → l.base.free_list ≡ []
      → let r = (limited_allocate l size).1 in
        (r.base.free_list ≡ [])
        × (r.max_blocks ≡ l.max_blocks)
        × (l.max_blocks ≤ l.used_blocks ⊎ r.used_blocks ≡ l.used_blocks + 1)
        × (l.used_blocks ≤ r.used_blocks)
  unfolding limited_allocate allocate
  empty_attempt l size e = ground arith

  attempts_use_up :
      (n size : ℕ) (l : LimitedPool A)
      → l.base.free_list ≡ []
      → l.max_blocks ≤ l.used_blocks + n
      → (attempts n size l).max_blocks ≤ (attempts n size l).used_blocks
  unfolding attempts
  attempts_use_up zero size l e h = omega arith
  attempts_use_up (suc n) size l e h =
      let f = empty_attempt l size e in
      attempts_use_up n size (limited_allocate l size).1 f.0 (omega (arith, f))

  -- Where the quota is used up, attempts change nothing.
  attempts_spent :
      (n size : ℕ) (l : LimitedPool A) → l.max_blocks ≤ l.used_blocks → attempts n size l ≡ l
  unfolding attempts limited_allocate
  attempts_spent zero size l h = refl
  attempts_spent (suc n) size l h =
      let refused : ltb l.used_blocks l.max_blocks ≡ false = ground arith in
      rw refused (attempts_spent n size l h)

  -- Failed allocations count against the quota: while the pool is empty, as many attempts as the
  -- quota has left make every allocation after them fail, whatever the pool has by then, as long as
  -- no block is given back through the quota.
  pub attempts_exhaust :
      (n size m between later : ℕ) (l : LimitedPool A) (refilled : Pool A)
      → l.base.free_list ≡ []
      → l.max_blocks ≤ l.used_blocks + n
      → let l' : LimitedPool A = record (attempts n size l) { base = refilled } in
        (limited_allocate (attempts m between l') later).0 ≡ none
  unfolding limited_allocate
  attempts_exhaust n size m between later l refilled e h =
      let spent = attempts_use_up n size l e h in
      let l' : LimitedPool A = record (attempts n size l) { base = refilled } in
      rw (attempts_spent m between l' spent) (ground (arith, spent))
