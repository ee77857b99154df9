-- ===== src/Marshal/ScalarCodec/Signs.antt =====
-- scalar_codec.hpp: clearExtraBits and fixTwosComplement undo each other within a field's range.
use uavcan.Base.{
  ℕ, zero, suc, ◌+◌, ◌-◌, ◌*◌, ◌/◌, ◌%◌, ◌^◌, ◌≤◌, ◌<◌, ◌≡◌, ◌≢◌, refl, ap, ap₂, subst, ◌∙◌, ◌⊎◌,
  inl, inr, false, max, ltb, ◌==◌, ==_ne, if◌then◌else◌, Bool-cases, bit_and, bit_or, bit_xor,
  bit_and_mask, bit_and_bit, two_pow_suc, digit, digit_zero, digit-mod, digit-mul, digit_above,
  digit-bit_and, digit-bit_or, digit-bit_xor, same_digits, arith,
}
use native.Mathlib.Nat.{mod-eq_of_lt, mod-lt, div-eq_of_lt}
use uavcan.Marshal.ScalarCodec.{ScalarType, clear_extra_bits, fix_twos_complement}

-- The values that a field of `bitlen` bits holds: below 2 ^ bitlen, and for a signed type the bit
-- patterns of the numbers from -2 ^ (bitlen - 1) to 2 ^ (bitlen - 1) - 1.
abbrev pub InRange : ScalarType → (bitlen value : ℕ) → Type 0
InRange t bitlen value =
    if t.is_signed
    then (value < 2 ^ (bitlen - 1))
      ⊎ ((2 ^ (8 * t.size) ≤ value + 2 ^ (bitlen - 1)) × (value < 2 ^ (8 * t.size)))
    else value < 2 ^ bitlen

two_pow-pos : (w : ℕ) → 1 ≤ 2 ^ w
two_pow-pos zero = omega arith
two_pow-pos (suc w) = omega (arith, two_pow_suc w, two_pow-pos w)

-- The digits of the complement within `w` bits.
complement_digit : (w k n : ℕ) → n < 2 ^ w → k < w → digit k (2 ^ w - 1 - n) + digit k n ≡ 1
unfolding digit
complement_digit zero k n h lt = absurd (omega arith)
complement_digit (suc w) zero n h lt = omega (arith, two_pow_suc w, two_pow-pos w)
complement_digit (suc w) (suc k) n h lt =
    let half : (2 ^ suc w - 1 - n) / 2 ≡ 2 ^ w - 1 - n / 2 =
      omega (arith, two_pow_suc w, two_pow-pos w) in
    ap (λ t. digit k t + digit k (n / 2)) half
    ∙ complement_digit w k (n / 2) (omega (arith, two_pow_suc w)) (omega arith)

ones_digit : (w k : ℕ) → digit k (2 ^ w - 1) ≡ (if ltb k w then 1 else 0)
ones_digit w k = elim (Bool-cases (ltb k w)) [
  | inl low ↦
      let whole : 2 ^ w - 1 - 0 ≡ 2 ^ w - 1 = omega arith in
      rw low (
        omega (
          arith,
          complement_digit w k 0 (two_pow-pos w) (ground arith),
          digit_zero k,
          ap (digit k) whole,
        ))
  | inr high ↦ rw high (digit_above w k (2 ^ w - 1) (omega (arith, two_pow-pos w)) (ground arith))
]

-- The bits from the sign on of a negative number are set.
sign_bits :
    (w h k value : ℕ) → 2 ^ w ≤ value + 2 ^ h → value < 2 ^ w → h ≤ k → k < w → digit k value ≡ 1
sign_bits w h k value low word le lt =
    let n = 2 ^ w - 1 - value in
    let back : 2 ^ w - 1 - n ≡ value = omega arith in
    omega (
      arith,
      complement_digit w k n (omega (arith, two_pow-pos w)) lt,
      ap (digit k) back,
      digit_above h k n (omega (arith, two_pow-pos h)) le,
    )

module _ (w b value : ℕ) (shorter : b < w) (some_bits : 1 ≤ b) where
  abbrev cut : ℕ
  cut = value % 2 ^ b

  cut-lt : cut < 2 ^ b
  cut-lt = mod-lt value (two_pow-pos b)

  -- The sign bit of a field of a negative number.
  sign_set : 2 ^ w ≤ value + 2 ^ (b - 1) → value < 2 ^ w → bit_and cut (2 ^ (b - 1)) ≢ 0
  sign_set low word none_set =
      let h = b - 1 in
      let one_at : digit h (2 ^ h) ≡ 1 =
        let index : h ≡ h + 0 = omega arith in
        let value : 2 ^ h ≡ 1 * 2 ^ h = omega arith in
        ap₂ digit index value ∙ digit-mul h 0 1 ∙ unfold digit in refl in
      absurd (
        omega (
          arith,
          digit-bit_and h cut (2 ^ h),
          ap (digit h) none_set,
          digit_zero h,
          digit-mod b h value (omega arith),
          sign_bits w h h value low word (omega arith) (omega arith),
          one_at,
        ))

  extended :
      2 ^ w ≤ value + 2 ^ (b - 1)
      → value < 2 ^ w
      → bit_or cut (bit_xor (2 ^ w - 1) (2 ^ b - 1)) ≡ value
  extended low word =
      same_digits _ _ λ k. digit-bit_or k cut (bit_xor (2 ^ w - 1) (2 ^ b - 1)) ∙ each k
    where
      each : (k : ℕ) → max (digit k cut) (digit k (bit_xor (2 ^ w - 1) (2 ^ b - 1))) ≡ digit k value
      each k = elim (Bool-cases (ltb k b)) [
        | inl field ↦ ground (
          arith,
          digit-bit_xor k (2 ^ w - 1) (2 ^ b - 1),
          ones_digit w k,
          ones_digit b k,
          digit-mod b k value,
        )
        | inr high ↦ elim (Bool-cases (ltb k w)) [
          | inl sign ↦ ground (
            arith,
            digit-bit_xor k (2 ^ w - 1) (2 ^ b - 1),
            ones_digit w k,
            ones_digit b k,
            digit_above b k cut cut-lt,
            sign_bits w (b - 1) k value low word,
          )
          | inr above ↦ ground (
            arith,
            digit-bit_xor k (2 ^ w - 1) (2 ^ b - 1),
            ones_digit w k,
            ones_digit b k,
            digit_above b k cut cut-lt,
            digit_above w k value word,
          )
        ]
      ]

pub clear_extra_bits-lt :
    (t : ScalarType) (bitlen value : ℕ)
    → value < 2 ^ (8 * t.size)
    → clear_extra_bits t bitlen value < 2 ^ bitlen
unfolding clear_extra_bits
clear_extra_bits-lt t bitlen value word = elim (Bool-cases (8 * t.size == bitlen)) [
  | inl same ↦
      let e : 8 * t.size ≡ bitlen = ground arith in rw same (subst (λ n. value < 2 ^ n) e word)
  | inr other ↦
      rw other (omega (arith, bit_and_mask bitlen value, mod-lt value (two_pow-pos bitlen)))
]

pub fix-clear :
    (t : ScalarType) (bitlen value : ℕ)
    → 1 ≤ bitlen
    → bitlen ≤ 8 * t.size
    → InRange t bitlen value
    → fix_twos_complement t bitlen (clear_extra_bits t bitlen value) ≡ value
unfolding fix_twos_complement clear_extra_bits
fix-clear t bitlen value some_bits fits range =
    let next : bitlen ≡ suc (bitlen - 1) = omega arith in
    elim (Bool-cases (8 * t.size == bitlen)) [
      | inl same ↦ ground arith
      | inr other ↦ elim (Bool-cases t.is_signed) [
        | inr unsigned ↦
            let small : value < 2 ^ bitlen = rw unsigned at range in
            rw (unsigned, other) (bit_and_mask bitlen value ∙ mod-eq_of_lt small)
        | inl signed ↦ elim (rw signed at range) [
          | inl small ↦
              let below : value < 2 ^ bitlen =
                omega (arith, two_pow_suc (bitlen - 1), ap (λ n. 2 ^ n) next) in
              let field : bit_and value (2 ^ bitlen - 1) ≡ value =
                bit_and_mask bitlen value ∙ mod-eq_of_lt below in
              let nothing : 0 % 2 * 2 ^ (bitlen - 1) ≡ 0 = omega arith in
              let unset : bit_and value (2 ^ (bitlen - 1)) ≡ 0 =
                bit_and_bit (bitlen - 1) value
                ∙ ap (λ n. n % 2 * 2 ^ (bitlen - 1)) (div-eq_of_lt small)
                ∙ nothing in
              rw (signed, other) (rw field (rw unset refl))
          | inr (low, word) ↦
              let shorter : bitlen < 8 * t.size = ground arith in
              let set : (bit_and (value % 2 ^ bitlen) (2 ^ (bitlen - 1)) == 0) ≡ false =
                ==_ne _ 0 (sign_set (8 * t.size) bitlen value shorter some_bits low word) in
              rw (signed, other)
                (rw (bit_and_mask bitlen value)
                  (rw set (extended (8 * t.size) bitlen value shorter some_bits low word)))
        ]
      ]
    ]
