-- ===== src/Transport/AcceptanceFilter/Merge.antt =====
-- uc_can_acceptance_filter_configurator.cpp: what the merged filter of mergeFilters lets through,
-- and the bits that countBits counts.
use uavcan.Base.{
  ℕ, zero, suc, ◌+◌, ◌-◌, ◌%◌, ◌^◌, ◌≤◌, ◌<◌, ◌≡◌, ◌≢◌, refl, sym, ap, ap₂, ◌∙◌, inl, inr, bit_and,
  bit_xor, min, true, ◌==◌, ==_iff, every, every-at, digit, digit-lt, digit-bit_and, digit-bit_xor,
  digit_above, same_digits, bit_and-le, arith, leb, leb→le, Bool-cases,
}
use uavcan.Transport.AcceptanceFilter.{FilterConfig, merge_filters, count_loop, count_bits}

-- The test of a hardware filter, on an identifier with its flags.
abbrev pub Accepts : FilterConfig → ℕ → Type 0
Accepts f x = bit_and x f.mask ≡ bit_and f.id f.mask

-- Words of 32 bits that ask for the extended format.
pub record IsExtended (f : FilterConfig) : Type 0 where
  pub id_word : f.id < 2 ^ 32
  pub mask_word : f.mask < 2 ^ 32
  pub id_flag : digit 31 f.id ≡ 1
  pub mask_flag : digit 31 f.mask ≡ 1

ones_table : every 32 (λ k. digit k (2 ^ 32 - 1) == 1) ≡ true
unfolding digit every
ones_table = refl

ones_digit : (k : ℕ) → k < 32 → digit k (2 ^ 32 - 1) ≡ 1
ones_digit k h = (==_iff _ 1).0 (every-at 32 _ k ones_table h)

-- An identifier agrees with a filter in each digit of the mask.
agreed :
    (f : FilterConfig) (x k : ℕ)
    → Accepts f x
    → min (digit k x) (digit k f.mask) ≡ min (digit k f.id) (digit k f.mask)
agreed f x k h = sym (digit-bit_and k x f.mask) ∙ ap (digit k) h ∙ digit-bit_and k f.id f.mask

module _ (a b : FilterConfig) where
  abbrev differing_digit : ℕ → ℕ
  differing_digit k = ((digit k a.id + digit k b.id) % 2 + digit k (2 ^ 32 - 1)) % 2

  mask_digit :
      (k : ℕ)
      → digit k (merge_filters a b).mask
        ≡ min (min (digit k a.mask) (digit k b.mask)) (differing_digit k)
  unfolding merge_filters
  mask_digit k =
      digit-bit_and k (bit_and a.mask b.mask) (bit_xor (bit_xor a.id b.id) (2 ^ 32 - 1))
      ∙ ap₂ min (digit-bit_and k a.mask b.mask) (
          digit-bit_xor k (bit_xor a.id b.id) (2 ^ 32 - 1)
          ∙ ap (λ t. (t + digit k (2 ^ 32 - 1)) % 2) (digit-bit_xor k a.id b.id))

  id_digit :
      (k : ℕ)
      → digit k (merge_filters a b).id ≡ min (digit k a.id) (digit k (merge_filters a b).mask)
  unfolding merge_filters
  id_digit k = digit-bit_and k a.id (merge_filters a b).mask

  -- Enough for the merged filter: agreement in the digits that its mask keeps.
  accepted_by_digits :
      (x : ℕ)
      → ((k : ℕ)
          → min (digit k x) (digit k (merge_filters a b).mask)
            ≡ min (digit k a.id) (digit k (merge_filters a b).mask))
      → Accepts (merge_filters a b) x
  accepted_by_digits x same = same_digits _ _ λ k.
      digit-bit_and k x (merge_filters a b).mask
      ∙ same k
      ∙ omega (arith, id_digit k, digit-bit_and k (merge_filters a b).id (merge_filters a b).mask)

  pub merge_filters-left : (x : ℕ) → Accepts a x → Accepts (merge_filters a b) x
  merge_filters-left x h = accepted_by_digits x λ k.
      omega (arith, mask_digit k, agreed a x k h, digit-lt k x, digit-lt k a.id, digit-lt k a.mask)

  pub merge_filters-right : (x : ℕ) → b.mask < 2 ^ 32 → Accepts b x → Accepts (merge_filters a b) x
  merge_filters-right x word h = accepted_by_digits x λ k. elim (Bool-cases (leb 32 k)) [
    | inl above ↦ omega (arith, mask_digit k, digit_above 32 k b.mask word (leb→le 32 k above))
    | inr within ↦ omega (
      arith,
      mask_digit k,
      agreed b x k h,
      digit-lt k x,
      digit-lt k a.id,
      digit-lt k b.id,
      digit-lt k b.mask,
      ones_digit k (ground arith),
    )
  ]

  merge_filters-le : ((merge_filters a b).id ≤ a.id) × ((merge_filters a b).mask ≤ a.mask)
  unfolding merge_filters
  merge_filters-le = (
    bit_and-le a.id (merge_filters a b).mask,
    omega (
      arith,
      bit_and-le (bit_and a.mask b.mask) (bit_xor (bit_xor a.id b.id) (2 ^ 32 - 1)),
      bit_and-le a.mask b.mask,
    ),
  )

  pub merge_filters-IsExtended : IsExtended a → IsExtended b → IsExtended (merge_filters a b)
  merge_filters-IsExtended ea eb =
      let flag : digit 31 (merge_filters a b).mask ≡ 1 =
        omega (arith, mask_digit 31, ones_digit 31 (omega arith)) in
      record {
        id_word = omega (arith, merge_filters-le.0);
        mask_word = omega (arith, merge_filters-le.1);
        id_flag = omega (arith, id_digit 31);
        mask_flag = flag;
      }

count_loop-le : (fuel n count : ℕ) → count ≤ count_loop fuel n count
unfolding count_loop
count_loop-le zero n count = omega arith
count_loop-le (suc fuel) n count =
    ground (arith, count_loop-le fuel (bit_and n (n - 1)) (count + 1))

count_loop-lt : (fuel n count : ℕ) → n ≢ 0 → count < count_loop (suc fuel) n count
unfolding count_loop
count_loop-lt fuel n count h = ground (arith, count_loop-le fuel (bit_and n (n - 1)) (count + 1))

-- A number that is not 0 has a bit.
pub count_bits-pos : (n : ℕ) → n ≢ 0 → 0 < count_bits n
unfolding count_bits
count_bits-pos n h = count_loop-lt 31 n 0 h
