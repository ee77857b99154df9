-- ===== src/Transport/AcceptanceFilter/Merging.antt =====
-- uc_can_acceptance_filter_configurator.cpp: the choice of a pair of configurations, and
-- mergeConfigurations as a whole.
use uavcan.Base.{
  ℕ, zero, suc, ◌+◌, ◌-◌, ◌%◌, ◌^◌, ◌≤◌, ◌<◌, ◌≡◌, ◌≢◌, refl, ap, ap₂, ◌∙◌, ◌⊎◌, inl, inr, List,
  ◌∷◌, some, length, digit, digit_zero, ltb, Bool-cases, arith,
}
use uavcan.Util.Multiset.{Multiset, get_size}
use uavcan.Util.Multiset.Contents.{contents, get_size-contents}
use uavcan.Transport.AcceptanceFilter.{
  FilterConfig, config_at, merge_filters, same_config, count_bits, count_loop, Best, consider,
  best_with, best_from, find_best, merge_pair, merge_loop,
}
use uavcan.Transport.AcceptanceFilter.Merge.{IsExtended, merge_filters-IsExtended, count_bits-pos}
use uavcan.Transport.AcceptanceFilter.Rounds.{
  Accepted, EveryExtended, c_at-IsExtended, config_at-contents, IsReduced, reduced-IsReduced,
  merge_pair-contents, reduced, delete_first-hit, same_config_self,
}

abbrev start : Best
start = record { rank = 0; i_rank = 0; j_rank = 0 }

module _ (m : Multiset FilterConfig) (size : ℕ) where
  -- The indices are those of a pair, where there is a best one.
  IsPair : Best → Type 0
  IsPair best = (best.rank ≡ 0) ⊎ ((best.i_rank < best.j_rank) × (best.j_rank < size))

  abbrev IsBetter : Best → Best → Type 0
  IsBetter best after = IsPair after × (best.rank ≤ after.rank)

  consider-IsBetter :
      (i j : ℕ) (best : Best) → i < j → j < size → IsPair best → IsBetter best (consider m i j best)
  unfolding consider IsPair
  consider-IsBetter i j best lt within pair =
      let rank = count_bits (merge_filters (config_at m i) (config_at m j)).mask in
      elim (Bool-cases (ltb best.rank rank)) [
        | inl t ↦ rw t (inr (lt, within), ground arith)
        | inr f ↦ rw f (pair, omega arith)
      ]

  abbrev rank_of : ℕ → ℕ → ℕ
  rank_of i j = count_bits (merge_filters (config_at m i) (config_at m j)).mask

  consider-above : (i j : ℕ) (best : Best) → rank_of i j ≤ (consider m i j best).rank
  unfolding consider
  consider-above i j best = elim (Bool-cases (ltb best.rank (rank_of i j))) [
    | inl t ↦ rw t (omega arith)
    | inr f ↦ rw f (ground arith)
  ]

  best_with-IsBetter :
      (i rounds j : ℕ) (best : Best)
      → i < j
      → j + rounds ≤ size
      → IsPair best
      → IsBetter best (best_with m i rounds j best)
  unfolding best_with
  best_with-IsBetter i zero j best lt le pair = (pair, omega arith)
  best_with-IsBetter i (suc rounds) j best lt le pair =
      let (pair₁, up₁) = consider-IsBetter i j best lt (omega arith) pair in
      let (pair₂, up₂) =
        best_with-IsBetter i rounds (j + 1) (consider m i j best) (omega arith) (omega arith)
          pair₁ in
      (pair₂, omega arith)

  best_with-above :
      (i rounds j : ℕ) (best : Best)
      → i < j
      → j + suc rounds ≤ size
      → IsPair best
      → rank_of i j ≤ (best_with m i (suc rounds) j best).rank
  unfolding best_with
  best_with-above i rounds j best lt le pair =
      let (pair₁, up₁) = consider-IsBetter i j best lt (omega arith) pair in
      let (pair₂, up₂) =
        best_with-IsBetter i rounds (j + 1) (consider m i j best) (omega arith) (omega arith)
          pair₁ in
      omega (arith, consider-above i j best)

  module _ (small : size ≤ 2 ^ 8) where
    best_from-IsBetter :
        (rounds i : ℕ) (best : Best)
        → i + rounds < size
        → IsPair best
        → IsBetter best (best_from m size rounds i best)
    unfolding best_from
    best_from-IsBetter zero i best le pair = (pair, omega arith)
    best_from-IsBetter (suc rounds) i best le pair =
        let first = (i + 1) % 2 ^ 8 in
        let (pair₁, up₁) =
          best_with-IsBetter i (size - first) first best (omega arith) (omega arith) pair in
        let (pair₂, up₂) =
          best_from-IsBetter rounds (i + 1) (best_with m i (size - first) first best) (omega arith)
            pair₁ in
        (pair₂, omega arith)

    -- The pair of the first two configurations is considered.
    best_from-above :
        (rounds : ℕ) (best : Best)
        → suc rounds < size
        → IsPair best
        → rank_of 0 1 ≤ (best_from m size (suc rounds) 0 best).rank
    unfolding best_from
    best_from-above rounds best le pair =
        let all : size - 1 ≡ suc (size - 2) = omega arith in
        let (pair₁, up₁) =
          best_with-IsBetter 0 (size - 1) 1 best (omega arith) (omega arith) pair in
        let first : rank_of 0 1 ≤ (best_with m 0 (size - 1) 1 best).rank =
          rw all (best_with-above 0 (size - 2) 1 best (omega arith) (omega arith) pair) in
        let (pair₂, up₂) =
          best_from-IsBetter rounds 1 (best_with m 0 (size - 1) 1 best) (omega arith) pair₁ in
        omega arith

    best_pair :
        2 ≤ size
        → 0 < rank_of 0 1
        → let best = best_from m size (size - 1) 0 start in
          (best.i_rank < best.j_rank) × (best.j_rank < size)
    unfolding IsPair
    best_pair two counted =
        let all : size - 1 ≡ suc (size - 2) = omega arith in
        let pair : IsPair start = inl refl in
        let (found, up) = best_from-IsBetter (size - 1) 0 start (omega arith) pair in
        let above : rank_of 0 1 ≤ (best_from m size (size - 1) 0 start).rank =
          rw all (best_from-above (size - 2) start (omega arith) pair) in
        elim found [ inl none_found ↦ absurd (omega arith) | inr p ↦ p ]

not_zero : (x : ℕ) → digit 31 x ≡ 1 → x ≢ 0
not_zero x h e = absurd (omega (arith, ap (digit 31) e, digit_zero 31))

module _ (m : Multiset FilterConfig) (e : EveryExtended (contents m))
    (small : length (contents m) ≤ 2 ^ 8) where
  find_best-pair :
      2 ≤ length (contents m)
      → ((find_best m).i_rank < (find_best m).j_rank) × ((find_best m).j_rank < length (contents m))
  unfolding find_best
  find_best-pair two =
      let size : get_size m % 2 ^ 16 ≡ length (contents m) = omega (arith, get_size-contents m) in
      let merged = merge_filters (config_at m 0) (config_at m 1) in
      let at_0 : IsExtended (config_at m 0) =
        rw (config_at-contents m 0) (c_at-IsExtended (contents m) 0 (omega arith) e) in
      let at_1 : IsExtended (config_at m 1) =
        rw (config_at-contents m 1) (c_at-IsExtended (contents m) 1 (omega arith) e) in
      let kept : IsExtended merged =
        merge_filters-IsExtended (config_at m 0) (config_at m 1) at_0 at_1 in
      let counted : 0 < count_bits merged.mask =
        count_bits-pos merged.mask (not_zero merged.mask kept.mask_flag) in
      rw size (best_pair m (length (contents m)) small two counted)

  merge_pair-IsReduced :
      2 ≤ length (contents m) → IsReduced (contents m) (contents (merge_pair m (find_best m)))
  merge_pair-IsReduced two =
      let (lt, within) = find_best-pair two in
      rw (merge_pair-contents m (find_best m))
        (reduced-IsReduced (contents m) (find_best m).i_rank (find_best m).j_rank e lt within)

-- What the loop of mergeConfigurations gives.
pub record IsMerged (filters : ℕ) (cs cs' : List FilterConfig) : Type 0 where
  pub fits : length cs' ≤ filters
  pub extended : EveryExtended cs'
  pub wider : (x : ℕ) → Accepted x cs → Accepted x cs'

pub merge_loop-IsMerged :
    (fuel filters : ℕ) (m : Multiset FilterConfig)
    → 1 ≤ filters
    → EveryExtended (contents m)
    → length (contents m) ≤ 2 ^ 8
    → length (contents m) < fuel
    → (m' : Multiset FilterConfig) × (merge_loop fuel filters m ≡ some m')
      × IsMerged filters (contents m) (contents m')
unfolding merge_loop
merge_loop-IsMerged zero filters m pos e small enough = absurd (omega arith)
merge_loop-IsMerged (suc fuel) filters m pos e small enough =
    elim (Bool-cases (ltb filters (get_size m))) [
      | inr f ↦ (
        m,
        rw f refl,
        record { fits = ground (arith, get_size-contents m); extended = e; wider = λ x h. h },
      )
      | inl t ↦
          let two : 2 ≤ length (contents m) = ground (arith, get_size-contents m) in
          let round = merge_pair-IsReduced m e small two in
          let next = merge_pair m (find_best m) in
          let (m', done, rest) =
            merge_loop-IsMerged fuel filters next pos round.extended (omega (arith, round.shorter))
              (omega (arith, round.shorter)) in
          (
            m',
            rw t done,
            record {
              fits = rest.fits;
              extended = rest.extended;
              wider = λ x h. rest.wider x (round.wider x h);
            },
          )
    ]

-- No two configurations have a bit in common that a merged filter could keep.
abbrev pub AreDisjoint : Multiset FilterConfig → Type 0
AreDisjoint m = (i j : ℕ) → i < j → (merge_filters (config_at m i) (config_at m j)).mask ≡ 0

count_bits-zero : count_bits 0 ≡ 0
unfolding count_bits count_loop
count_bits-zero = refl

module _ (m : Multiset FilterConfig) (apart : AreDisjoint m) where
  consider-apart : (i j : ℕ) → i < j → consider m i j start ≡ start
  unfolding consider
  consider-apart i j lt =
      let none_kept : count_bits (merge_filters (config_at m i) (config_at m j)).mask ≡ 0 =
        ap count_bits (apart i j lt) ∙ count_bits-zero in
      rw none_kept refl

  best_with-apart : (i rounds j : ℕ) → i < j → best_with m i rounds j start ≡ start
  unfolding best_with
  best_with-apart i zero j lt = refl
  best_with-apart i (suc rounds) j lt =
      rw (consider-apart i j lt) (best_with-apart i rounds (j + 1) (omega arith))

  best_from-apart :
      (size rounds i : ℕ)
      → size ≤ 2 ^ 8
      → i + rounds < size
      → best_from m size rounds i start ≡ start
  unfolding best_from
  best_from-apart size zero i small le = refl
  best_from-apart size (suc rounds) i small le =
      let first = (i + 1) % 2 ^ 8 in
      ap (best_from m size rounds (i + 1)) (best_with-apart i (size - first) first (omega arith))
      ∙ best_from-apart size rounds (i + 1) small (omega arith)

  -- Where no two of at most 256 configurations can be merged, a round of mergeConfigurations merges
  -- the first one with itself and removes it: the others are left, as they were.
  pub merge_pair-drops_first :
      (c : FilterConfig) (cs : List FilterConfig)
      → contents m ≡ c ∷ cs
      → length (contents m) ≤ 2 ^ 8
      → contents (merge_pair m (find_best m)) ≡ cs
  unfolding find_best
  merge_pair-drops_first c cs e small =
      let size : get_size m % 2 ^ 16 ≡ suc (length cs) =
        omega (arith, get_size-contents m, ap length e) in
      let best : find_best m ≡ start =
        ap (λ n. best_from m n (n - 1) 0 start) size
        ∙ best_from-apart (suc (length cs)) (suc (length cs) - 1) 0 (omega (arith, ap length e))
            (omega arith) in
      let merged = merge_filters c c in
      merge_pair-contents m (find_best m)
      ∙ ap₂ (λ l b. reduced l b.i_rank b.j_rank) e best
      ∙ delete_first-hit (same_config merged) merged cs (same_config_self merged)
