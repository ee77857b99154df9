-- ===== src/Transport/TransferBuffer/Entry/Reads.antt =====
-- Reading a chain of blocks is reading one array.
use mathlib.Core.List.{append-nil}
use uavcan.Base.{
  ℕ, zero, suc, ◌+◌, ◌-◌, ◌≡◌, ◌≢◌, refl, sym, ap, ap₂, ◌∙◌, arith, List, [], ◌∷◌, ◌++◌, length,
  take, drop, ◌⊎◌, inl, inr, true, false, leb, ◌==◌, ==_iff, take-append, drop-append, drop_nil,
  Bool-cases, take_nil, length-drop,
}
use uavcan.Transport.TransferBuffer.Entry.{block_read, read_blocks}
use uavcan.Transport.TransferBuffer.Entry.Chain.{flatten}

block_read_form :
    (ds : List ℕ) (target total k left : ℕ)
    → target - total ≡ k
    → let r = block_read ds target total left in
      (r.out ≡ take left (drop k ds))
      × (r.left ≡ left - (length ds - k))
      × ((r.left ≡ 0) ⊎ (r.total ≡ total + length ds))
unfolding block_read
block_read_form [] target total k left e =
    (sym (ap (take left) (drop_nil k) ∙ take_nil left), omega arith, inr (omega arith))
block_read_form (d ∷ ds) target total k zero e = (refl, omega arith, inl refl)
block_read_form (d ∷ ds) target total zero (suc left) e =
    let hit : leb target total ≡ true = ground arith in
    let ih = block_read_form ds target (total + 1) zero left (omega arith) in
    rw hit (
      ap (◌∷◌ d) ih.0,
      omega (arith, ih.1),
      elim ih.2 [ inl z ↦ inl z | inr t ↦ inr (omega (arith, t)) ],
    )
block_read_form (d ∷ ds) target total (suc k) (suc left) e =
    let miss : leb target total ≡ false = ground arith in
    let ih = block_read_form ds target (total + 1) k (suc left) (omega arith) in
    rw miss
      (ih.0, omega (arith, ih.1), elim ih.2 [ inl z ↦ inl z | inr t ↦ inr (omega (arith, t)) ])

-- The loop of `read` gives the bytes from the target on.
pub read_blocks_form :
    (bs : List (List ℕ)) (target total k left : ℕ)
    → target - total ≡ k
    → read_blocks bs target total left ≡ take left (drop k (flatten bs))
unfolding read_blocks flatten
read_blocks_form [] target total k left e = sym (ap (take left) (drop_nil k) ∙ take_nil left)
read_blocks_form (b ∷ bs) target total k left e =
    let r = block_read b target total left in
    let form = block_read_form b target total k left e in
    let ih = read_blocks_form bs target r.total (target - r.total) r.left refl in
    let there = ap₂ (λ x y. x ++ y) form.0 ih in
    let joined : take left (drop k b)
          ++ take (left - (length b - k)) (drop (k - length b) (flatten bs))
        ≡ take left (drop k (b ++ flatten bs)) =
      ap (λ n. take left (drop k b) ++ take n (drop (k - length b) (flatten bs)))
        (omega (arith, length-drop k b))
      ∙ sym (
          ap (take left) (drop-append k b (flatten bs))
          ∙ take-append left (drop k b) (drop (k - length b) (flatten bs))) in
    elim (Bool-cases (r.left == 0)) [
      | inl done ↦
          let zero_left : left - (length b - k) ≡ 0 = sym form.1 ∙ (==_iff r.left 0).0 done in
          rw done (
            form.0
            ∙ sym (append-nil (take left (drop k b)))
            ∙ ap (λ n. take left (drop k b) ++ take n (drop (k - length b) (flatten bs)))
                (sym zero_left)
            ∙ joined)
      | inr more ↦
          let pos : r.left ≢ 0 = ground arith in
          let later : target - r.total ≡ k - length b = elim form.2 [
            | inl z ↦ absurd (pos z)
            | inr t ↦ omega (arith, t)
          ] in
          rw more (
            there
            ∙ ap₂ (λ n j. take left (drop k b) ++ take n (drop j (flatten bs))) form.1 later
            ∙ joined)
    ]
