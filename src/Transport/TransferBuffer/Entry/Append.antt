-- ===== src/Transport/TransferBuffer/Entry/Append.antt =====
-- The loop that takes blocks from the pool.
use uavcan.Base.{
  ℕ, zero, suc, ◌+◌, ◌-◌, ◌≤◌, ◌≡◌, refl, sym, ap, ◌∙◌, arith, List, [], ◌∷◌, ◌++◌, length, drop,
  ◌⊎◌, inl, inr, some, copy_at, copy_at_nil, drop_nil, List-cases, length-eq_zero,
}
use uavcan.Memory.{Pool, allocate}
use uavcan.Memory.Accounting.{allocate-empty, allocate-cons}
use uavcan.Transport.TransferBuffer.Entry.{Chained, block_write, append_blocks}
use uavcan.Transport.TransferBuffer.Entry.Chain.{flatten, Wrote-cons, Wrote-last}

-- What the loop does: it takes blocks off the front of the free list, writes into them as into one
-- array, and stops when the input or the pool is used up.
pub record Appended (p : Pool (List ℕ)) (k total : ℕ) (input : List ℕ) (r : Chained × Pool (List ℕ))
    : Type 0 where
  pub taken : List (List ℕ)
  pub pool_split : p.free_list ≡ taken ++ r.1.free_list
  pub wrote : flatten r.0.blocks ≡ copy_at k input (flatten taken)
  pub left_over : r.0.input ≡ drop (length (flatten taken) - k) input
  pub used_up : (r.0.input ≡ []) ⊎ (r.1.free_list ≡ [])

append_nil :
    (fuel : ℕ) (p : Pool (List ℕ)) (target total : ℕ)
    → append_blocks fuel p target total [] ≡ (record { blocks = []; total = total; input = [] }, p)
unfolding append_blocks
append_nil zero p target total = refl
append_nil (suc fuel) p target total = refl

append_empty :
    (fuel : ℕ) (p : Pool (List ℕ)) (target total x : ℕ) (xs : List ℕ)
    → p.free_list ≡ []
    → append_blocks fuel p target total (x ∷ xs)
      ≡ (record { blocks = []; total = total; input = x ∷ xs }, p)
unfolding append_blocks
append_empty zero p target total x xs e = refl
append_empty (suc fuel) p target total x xs e =
    let none_got = allocate-empty p p.block_size e in
    rw (none_got, append_blocks) (rw none_got refl)

append_cons :
    (fuel : ℕ) (p q : Pool (List ℕ)) (target total x : ℕ) (xs b : List ℕ)
    → allocate p p.block_size ≡ (some b, q)
    → let w = block_write b target total (x ∷ xs) in
      let r = append_blocks fuel q target w.total w.input in
      append_blocks (suc fuel) p target total (x ∷ xs)
      ≡ (record { blocks = w.block ∷ r.0.blocks; total = r.0.total; input = r.0.input }, r.1)
unfolding append_blocks
append_cons fuel p q target total x xs b e = rw (e, append_blocks) (rw e refl)

empty_Appended :
    (p : Pool (List ℕ)) (k total : ℕ) (input : List ℕ)
    → p.free_list ≡ []
    → Appended p k total input (record { blocks = []; total = total; input = input }, p)
unfolding flatten copy_at
empty_Appended p k total input e =
    let nothing : 0 ≡ 0 - k = omega arith in
    record {
      taken = [];
      pool_split = refl;
      wrote = refl;
      left_over = ap (λ t. drop t input) nothing;
      used_up = inr e;
    }

done_Appended :
    (p : Pool (List ℕ)) (k total : ℕ)
    → Appended p k total [] (record { blocks = []; total = total; input = [] }, p)
unfolding flatten copy_at
done_Appended p k total = record {
  taken = [];
  pool_split = refl;
  wrote = refl;
  left_over = sym (drop_nil (0 - k));
  used_up = inl refl;
}

cons_Appended :
    (p q : Pool (List ℕ)) (target total k : ℕ) (b : List ℕ) (rest : List (List ℕ)) (input : List ℕ)
    (r : Chained × Pool (List ℕ))
    → target - total ≡ k
    → p.free_list ≡ b ∷ rest
    → q.free_list ≡ rest
    → let w = block_write b target total input in
      Appended q (target - w.total) w.total w.input r
      → Appended p k total input
          (record { blocks = w.block ∷ r.0.blocks; total = r.0.total; input = r.0.input }, r.1)
unfolding flatten
cons_Appended p q target total k b rest input r e full q_free a =
    let w = block_write b target total input in
    let flat = flatten a.taken in
    let free = full ∙ ap (◌∷◌ b) (sym q_free ∙ a.pool_split) in
    elim (List-cases w.input) [
      | inl done ↦
          let same : flatten r.0.blocks ≡ flat =
            a.wrote
            ∙ ap (λ i. copy_at (target - w.total) i flat) done
            ∙ copy_at_nil (target - w.total) flat in
          let nothing : r.0.input ≡ [] =
            a.left_over
            ∙ ap (drop (length flat - (target - w.total))) done
            ∙ drop_nil (length flat - (target - w.total)) in
          let l = Wrote-last target total k b input flat r.0.blocks 0 e same done in
          record {
            taken = b ∷ a.taken;
            pool_split = free;
            wrote = l.0;
            left_over = nothing ∙ l.1;
            used_up = inl nothing;
          }
      | inr (y, ys, more) ↦
          let l =
            Wrote-cons target total k b input flat r.0.blocks r.0.input (w.total + length flat) e
              (a.wrote, a.left_over, inr refl) (λ none_left. cc) in
          record {
            taken = b ∷ a.taken;
            pool_split = free;
            wrote = l.0;
            left_over = l.1;
            used_up = a.used_up;
          }
    ]

-- With at least as much fuel as free blocks, the loop does its work.
pub append_blocks-Appended :
    (fuel : ℕ) (p : Pool (List ℕ)) (target total k : ℕ) (input : List ℕ)
    → length p.free_list ≤ fuel
    → target - total ≡ k
    → Appended p k total input (append_blocks fuel p target total input)
append_blocks-Appended fuel p target total k [] h e =
    rw (append_nil fuel p target total) (done_Appended p k total)
append_blocks-Appended zero p target total k (x ∷ xs) h e =
    let none_free : p.free_list ≡ [] = length-eq_zero p.free_list (omega arith) in
    rw (append_empty zero p target total x xs none_free)
      (empty_Appended p k total (x ∷ xs) none_free)
append_blocks-Appended (suc fuel) p target total k (x ∷ xs) h e = elim (List-cases p.free_list) [
  | inl none_free ↦
      rw (append_empty (suc fuel) p target total x xs none_free)
        (empty_Appended p k total (x ∷ xs) none_free)
  | inr (b, rest, full) ↦
      let (q, got, q_free, q_size) = allocate-cons p b rest full in
      let w = block_write b target total (x ∷ xs) in
      rw (append_cons fuel p q target total x xs b got) (
        cons_Appended p q target total k b rest (x ∷ xs) _ e full q_free (
          append_blocks-Appended fuel q target w.total (target - w.total) w.input
            (omega (arith, ap length full, ap length q_free)) refl))
]
