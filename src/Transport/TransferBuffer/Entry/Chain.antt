-- ===== src/Transport/TransferBuffer/Entry/Chain.antt =====
-- The chain of blocks as one array: `flatten` forgets where the blocks end.
use mathlib.Core.List.{append_assoc}
use uavcan.Base.{
  ℕ, zero, suc, ◌+◌, ◌-◌, ◌≤◌, ◌≡◌, ◌≢◌, refl, sym, ap, ap₂, ◌∙◌, arith, List, [], ◌∷◌, ◌++◌,
  length, drop, ◌⊎◌, inl, inr, true, false, leb, if◌then◌else◌, copy_at, copy_at_nil,
  copy_at-append, drop_nil, drop_all, drop-drop, length-drop, length-append, List-cases,
}
use uavcan.Transport.TransferBuffer.Entry.{block_write, write_blocks}

unfoldable pub flatten : List (List ℕ) → List ℕ
flatten [] = []
flatten (b ∷ bs) = b ++ flatten bs

pub flatten-append : (xs ys : List (List ℕ)) → flatten (xs ++ ys) ≡ flatten xs ++ flatten ys
unfolding flatten
flatten-append [] ys = refl
flatten-append (x ∷ xs) ys =
    ap (◌++◌ x) (flatten-append xs ys) ∙ sym (append_assoc x (flatten xs) (flatten ys))

-- A block is written from the target on, and takes what it holds of the input.
pub block_write_form :
    (ds : List ℕ) (target total k : ℕ) (input : List ℕ)
    → target - total ≡ k
    → ((block_write ds target total input).block ≡ copy_at k input ds)
      × ((block_write ds target total input).input ≡ drop (length ds - k) input)
unfolding block_write copy_at
block_write_form [] target total k input e =
    let nothing : 0 ≡ 0 - k = omega arith in (refl, ap (λ t. drop t input) nothing)
block_write_form (d ∷ ds) target total k [] e =
    (sym (copy_at_nil k (d ∷ ds)), sym (drop_nil (suc (length ds) - k)))
block_write_form (d ∷ ds) target total zero (x ∷ xs) e =
    let hit : leb target total ≡ true = ground arith in
    let ih = block_write_form ds target (total + 1) zero xs (omega arith) in
    let n : suc (length ds - 0) ≡ suc (length ds) - 0 = omega arith in
    rw hit (ap (◌∷◌ x) ih.0, ih.1 ∙ ap (λ t. drop t (x ∷ xs)) n)
block_write_form (d ∷ ds) target total (suc k) (x ∷ xs) e =
    let miss : leb target total ≡ false = ground arith in
    let ih = block_write_form ds target (total + 1) k (x ∷ xs) (omega arith) in
    let n : length ds - k ≡ suc (length ds) - suc k = omega arith in
    rw miss (ap (◌∷◌ d) ih.0, ih.1 ∙ ap (λ t. drop t (x ∷ xs)) n)

pub block_write_total :
    (ds : List ℕ) (target total : ℕ) (input : List ℕ)
    → ((block_write ds target total input).input ≡ [])
      ⊎ ((block_write ds target total input).total ≡ total + length ds)
unfolding block_write
block_write_total [] target total input = inr (omega arith)
block_write_total (d ∷ ds) target total [] = inl refl
block_write_total (d ∷ ds) target total (x ∷ xs) =
    elim (block_write_total ds target (total + 1) (if leb target total then xs else x ∷ xs)) [
      | inl e ↦ inl e
      | inr e ↦ inr (omega arith)
    ]

drop_more : (n m : ℕ) (xs : List ℕ) → drop n xs ≡ [] → n ≤ m → drop m xs ≡ []
drop_more n m xs e h = drop_all m xs (omega (arith, length-drop n xs, ap length e))

-- Where the two parts of an array meet.
split_write :
    (k : ℕ) (b rest input : List ℕ)
    → drop (length (b ++ rest) - k) input
      ≡ drop (length rest - (k - length b)) (drop (length b - k) input)
split_write k b rest input =
    ap (λ n. drop n input) (omega (arith, length-append b rest))
    ∙ sym (drop-drop (length rest - (k - length b)) (length b - k) input)

-- What a loop over a chain does to the array.
abbrev pub Wrote : ℕ → ℕ → List ℕ → List ℕ → List (List ℕ) → List ℕ → ℕ → Type 0
Wrote k total input flat blocks left total' =
    (flatten blocks ≡ copy_at k input flat)
    × (left ≡ drop (length flat - k) input)
    × ((left ≡ []) ⊎ (total' ≡ total + length flat))

-- One block, and then the rest of the chain, whose part is known unless the input is used up.
pub Wrote-cons :
    (target total k : ℕ) (b input flat : List ℕ) (blocks : List (List ℕ)) (left : List ℕ)
    (total' : ℕ)
    → target - total ≡ k
    → let w = block_write b target total input in
      Wrote (target - w.total) w.total w.input flat blocks left total'
      → (w.input ≢ [])
      → Wrote k total input (b ++ flat) (w.block ∷ blocks) left total'
unfolding flatten
Wrote-cons target total k b input flat blocks left total' e (f, l, t) more =
    let form = block_write_form b target total k input e in
    let advance : (block_write b target total input).total ≡ total + length b =
      elim (block_write_total b target total input) [
        | inl done ↦ absurd (more done)
        | inr ahead ↦ ahead
      ] in
    let later : target - (block_write b target total input).total ≡ k - length b = omega arith in
    (
      ap₂ ◌++◌ form.0 (f ∙ ap₂ (λ j i. copy_at j i flat) later form.1)
          ∙ sym (copy_at-append k input b flat),
      l ∙ ap₂ (λ j i. drop (length flat - j) i) later form.1 ∙ sym (split_write k b flat input),
      elim t [ inl x ↦ inl x | inr x ↦ inr (omega (arith, length-append b flat)) ],
    )

-- The case where the block has used the input up.
pub Wrote-last :
    (target total k : ℕ) (b input flat : List ℕ) (blocks : List (List ℕ)) (total' : ℕ)
    → target - total ≡ k
    → flatten blocks ≡ flat
    → (block_write b target total input).input ≡ []
    → Wrote k total input (b ++ flat) ((block_write b target total input).block ∷ blocks) [] total'
unfolding flatten
Wrote-last target total k b input flat blocks total' e same done =
    let form = block_write_form b target total k input e in
    let dropped = sym form.1 ∙ done in
    (
      ap₂ ◌++◌ form.0 same
          ∙ ap (◌++◌ (copy_at k input b)) (
              sym
                (ap (λ i. copy_at (k - length b) i flat) dropped ∙ copy_at_nil (k - length b) flat))
          ∙ sym (copy_at-append k input b flat),
      sym (
          drop_more (length b - k) (length (b ++ flat) - k) input dropped
            (omega (arith, length-append b flat))),
      inl refl,
    )

write_blocks-last :
    (b : List ℕ) (bs : List (List ℕ)) (target total : ℕ) (input : List ℕ)
    → let w = block_write b target total input in
      w.input ≡ []
      → write_blocks (b ∷ bs) target total input
        ≡ record { blocks = w.block ∷ bs; total = w.total; input = [] }
unfolding write_blocks
write_blocks-last b bs target total input e = ground arith

write_blocks-more :
    (b : List ℕ) (bs : List (List ℕ)) (target total x : ℕ) (input xs : List ℕ)
    → let w = block_write b target total input in
      w.input ≡ x ∷ xs
      → let rest = write_blocks bs target w.total w.input in
        write_blocks (b ∷ bs) target total input
        ≡ record { blocks = w.block ∷ rest.blocks; total = rest.total; input = rest.input }
unfolding write_blocks
write_blocks-more b bs target total x input xs e = ground arith

-- The loop over the chain that is there.
pub write_blocks-Wrote :
    (bs : List (List ℕ)) (target total k : ℕ) (input : List ℕ)
    → target - total ≡ k
    → let r = write_blocks bs target total input in
      Wrote k total input (flatten bs) r.blocks r.input r.total
unfolding flatten copy_at
write_blocks-Wrote [] target total k input e =
    unfold write_blocks in
    let nothing : 0 ≡ 0 - k = omega arith in
    let stays : total ≡ total + 0 = omega arith in (refl, ap (λ t. drop t input) nothing, inr stays)
write_blocks-Wrote (b ∷ bs) target total k input e =
    elim (List-cases (block_write b target total input).input) [
      | inl done ↦ rw (write_blocks-last b bs target total input done) (
          Wrote-last target total k b input (flatten bs) bs (block_write b target total input).total
            e refl done)
      | inr (x, xs, more) ↦
          let w = block_write b target total input in
          let rest = write_blocks bs target w.total w.input in
          rw (write_blocks-more b bs target total x input xs more) (
            Wrote-cons target total k b input (flatten bs) rest.blocks rest.input rest.total e
              (write_blocks-Wrote bs target w.total (target - w.total) w.input refl)
              (λ none_left. cc))
    ]
