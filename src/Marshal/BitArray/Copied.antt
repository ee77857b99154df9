-- ===== src/Marshal/BitArray/Copied.antt =====
-- uc_bit_array_copy.cpp: which bits a copy changes, and to what.
use uavcan.Base.{
  ℕ, zero, suc, ◌+◌, ◌-◌, ◌*◌, ◌/◌, ◌%◌, ◌^◌, ◌≤◌, ◌<◌, ◌≡◌, refl, sym, ap, ap₂, ◌∙◌, inl, inr,
  bit_and, bit_or, bit_xor, Bool, true, false, ◌&&◌, ◌||◌, List, [], ◌∷◌, length, get_or, set,
  length-set, ltb, leb, ◌==◌, ==_iff, if◌then◌else◌, Bool-cases, every, every-at, digit, digit-lt,
  digit-bit_and, digit-bit_or, digit-bit_xor, digit-mod, digit-div, digit-mul, arith,
}
use uavcan.Marshal.BitArray.{
  copied_bits, write_mask, src_data, merge_byte, copy_loop, bitarray_copy, bit_at,
}

-- The mask has the bits from dst_bit on, as many as are copied.
abbrev pub in_window : (from count j : ℕ) → Bool
in_window from count j = leb from j && ltb j (from + count)

mask_digit_table :
    every 8 (λ j. every 8 (λ d.
      every 9 (λ c.
        ltb 8 (d + c) || digit (7 - j) (write_mask c d) == (if in_window d c j then 1 else 0))))
    ≡ true
unfolding every digit write_mask
mask_digit_table = refl

mask_digit :
    (j d c : ℕ)
    → j < 8
    → d + c ≤ 8
    → d < 8
    → digit (7 - j) (write_mask c d) ≡ (if in_window d c j then 1 else 0)
mask_digit j d c hj h hd =
    let at_c =
      every-at 9 _ c (every-at 8 _ d (every-at 8 _ j mask_digit_table hj) hd) (omega arith) in
    ground (arith, at_c)

ones_table : every 8 (λ k. digit k 0xff == 1) ≡ true
unfolding every digit
ones_table = refl

merge_byte-digit :
    (old new mask j : ℕ)
    → j < 8
    → digit (7 - j) (merge_byte old new mask)
      ≡ (if digit (7 - j) mask == 1 then digit (7 - j) new else digit (7 - j) old)
unfolding merge_byte
merge_byte-digit old new mask j hj =
    let k = 7 - j in
    let kept = bit_and old (bit_xor mask 0xff) in
    let one : digit k 0xff ≡ 1 = (==_iff _ 1).0 (every-at 8 _ k ones_table (omega arith)) in
    ground (
      arith,
      digit-mod 8 k (bit_or kept (bit_and new mask)),
      digit-bit_or k kept (bit_and new mask),
      digit-bit_and k old (bit_xor mask 0xff),
      digit-bit_xor k mask 0xff,
      digit-bit_and k new mask,
      digit-lt k old,
      digit-lt k new,
      digit-lt k mask,
    )

src_data-digit :
    (byte s d j : ℕ)
    → j < 8
    → d ≤ j
    → s + (j - d) < 8
    → digit (7 - j) (src_data byte s d) ≡ digit (7 - (s + (j - d))) byte
unfolding src_data
src_data-digit byte s d j hj le lt =
    let index : d + (7 - j) ≡ s + (7 - (s + (j - d))) = omega arith in
    digit-mod 8 (7 - j) (byte * 2 ^ s / 2 ^ d) (omega arith)
    ∙ digit-div d (7 - j) (byte * 2 ^ s)
    ∙ ap (λ k. digit k (byte * 2 ^ s)) index
    ∙ digit-mul s (7 - (s + (j - d))) byte

pub get_or-set :
    (xs : List ℕ) (i j v : ℕ)
    → i < length xs
    → get_or (set xs i v) j 0 ≡ (if i == j then v else get_or xs j 0)
get_or-set [] i j v h = absurd (omega arith)
get_or-set (x ∷ xs) zero zero v h = refl
get_or-set (x ∷ xs) zero (suc j) v h = ground arith
get_or-set (x ∷ xs) (suc i) zero v h = ground arith
get_or-set (x ∷ xs) (suc i) (suc j) v h = ground (arith, get_or-set xs i j v)

-- The bits behind a round that copies `count` bits.
module _ (src dst : List ℕ) (s d count : ℕ) (fits : d / 8 < length dst) (some_bits : 1 ≤ count)
    (src_fits : s % 8 + count ≤ 8) (dst_fits : d % 8 + count ≤ 8) where
  abbrev round_byte : ℕ
  round_byte =
      merge_byte (get_or dst (d / 8) 0) (src_data (get_or src (s / 8) 0) (s % 8) (d % 8))
        (write_mask count (d % 8))

  abbrev old_byte : ℕ
  old_byte = get_or dst (d / 8) 0

  round_byte-inside :
      (i : ℕ)
      → i / 8 ≡ d / 8
      → d ≤ i
      → i < d + count
      → digit (7 - i % 8) round_byte ≡ bit_at src (s + (i - d))
  round_byte-inside i same le lt =
      let byte = get_or src (s / 8) 0 in
      let new = src_data byte (s % 8) (d % 8) in
      let mask = write_mask count (d % 8) in
      let masked : digit (7 - i % 8) mask ≡ 1 =
        ground (arith, mask_digit (i % 8) (d % 8) count (omega arith) dst_fits (omega arith)) in
      let taken : digit (7 - i % 8) round_byte ≡ digit (7 - i % 8) new =
        ground (arith, merge_byte-digit old_byte new mask (i % 8) (omega arith)) in
      let at_byte : s / 8 ≡ (s + (i - d)) / 8 = omega arith in
      let at_bit : 7 - (s % 8 + (i % 8 - d % 8)) ≡ 7 - (s + (i - d)) % 8 = omega arith in
      taken
      ∙ src_data-digit byte (s % 8) (d % 8) (i % 8) (omega arith) (omega arith) (omega arith)
      ∙ ap₂ (λ k n. digit k (get_or src n 0)) at_bit at_byte

  round_byte-outside :
      (i : ℕ)
      → i / 8 ≡ d / 8
      → in_window d count i ≡ false
      → digit (7 - i % 8) round_byte ≡ digit (7 - i % 8) old_byte
  round_byte-outside i same out =
      let new = src_data (get_or src (s / 8) 0) (s % 8) (d % 8) in
      let mask = write_mask count (d % 8) in
      let unmasked : digit (7 - i % 8) mask ≡ 0 =
        ground (arith, mask_digit (i % 8) (d % 8) count (omega arith) dst_fits (omega arith)) in
      ground (arith, merge_byte-digit old_byte new mask (i % 8) (omega arith))

  round_bits :
      (i : ℕ)
      → bit_at (set dst (d / 8) round_byte) i
        ≡ (if in_window d count i then bit_at src (s + (i - d)) else bit_at dst i)
  round_bits i =
      ap (digit (7 - i % 8)) (get_or-set dst (d / 8) (i / 8) round_byte fits)
      ∙ elim (Bool-cases (d / 8 == i / 8)) [
        | inr other ↦ let out : in_window d count i ≡ false = ground arith in rw (other, out) refl
        | inl t ↦
            let same : i / 8 ≡ d / 8 = ground arith in
            elim (Bool-cases (in_window d count i)) [
              | inl into ↦ rw (t, into) (round_byte-inside i same (ground arith) (ground arith))
              | inr out ↦
                  rw (t, out)
                    (round_byte-outside i same out
                      ∙ ap (λ n. digit (7 - i % 8) (get_or dst n 0)) (sym same))
            ]
      ]

-- The bits of the first round and those of the rounds behind it.
joined :
    (f : ℕ → ℕ) (old new s d count rest i : ℕ)
    → count ≤ rest
    → new ≡ (if in_window d count i then f (s + (i - d)) else old)
    → (if in_window (d + count) (rest - count) i then f (s + count + (i - (d + count))) else new)
      ≡ (if in_window d rest i then f (s + (i - d)) else old)
joined f old new s d count rest i le e =
    elim (Bool-cases (in_window (d + count) (rest - count) i)) [
      | inl later ↦
          let whole : in_window d rest i ≡ true = ground arith in
          let index : s + count + (i - (d + count)) ≡ s + (i - d) = ground arith in
          rw (later, whole) (ap f index)
      | inr not_later ↦ elim (Bool-cases (in_window d count i)) [
        | inl now ↦
            let whole : in_window d rest i ≡ true = ground arith in
            rw (not_later, whole) (rw now at e)
        | inr not_now ↦
            let whole : in_window d rest i ≡ false = ground arith in
            rw (not_later, whole) (rw not_now at e)
      ]
    ]

copied_bits_bounds :
    (rest s d : ℕ)
    → 1 ≤ rest
    → s < 8
    → d < 8
    → let count = copied_bits rest s d in
      (1 ≤ count) × (count ≤ rest) × (s + count ≤ 8) × (d + count ≤ 8)
unfolding copied_bits
copied_bits_bounds rest s d h hs hd = omega arith

pub copy_loop-bits :
    (fuel : ℕ) (src : List ℕ) (s rest : ℕ) (dst : List ℕ) (d : ℕ)
    → rest ≤ fuel
    → d + rest ≤ 8 * length dst
    → (i : ℕ)
    → bit_at (copy_loop fuel src s rest dst d) i
      ≡ (if in_window d rest i then bit_at src (s + (i - d)) else bit_at dst i)
unfolding copy_loop
copy_loop-bits zero src s rest dst d enough fits i = ground arith
copy_loop-bits (suc fuel) src s rest dst d enough fits i =
    let count = copied_bits rest (s % 8) (d % 8) in
    elim (Bool-cases (rest == 0)) [
      | inl none_left ↦ rw none_left (ground arith)
      | inr left ↦
          let (some_bits, within, src_fits, dst_fits) =
            copied_bits_bounds rest (s % 8) (d % 8) (ground arith) (omega arith) (omega arith) in
          let inside : d / 8 < length dst = ground arith in
          let byte = round_byte src dst s d count inside some_bits src_fits dst_fits in
          let dst' = set dst (d / 8) byte in
          rw left (
            copy_loop-bits fuel src (s + count) (rest - count) dst' (d + count) (omega arith)
              (omega (arith, length-set dst (d / 8) byte)) i
            ∙ joined (bit_at src) (bit_at dst i) (bit_at dst' i) s d count rest i within
                (round_bits src dst s d count inside some_bits src_fits dst_fits i))
    ]

-- A copy with bit offsets into the arrays changes the bits from the destination's offset on, as many
-- as it is told, to the source's bits from its offset on, and no other bit.
pub bitarray_copy-bits :
    (src : List ℕ) (s len : ℕ) (dst : List ℕ) (d : ℕ)
    → d + len ≤ 8 * length dst
    → (i : ℕ)
    → bit_at (bitarray_copy src s len dst d) i
      ≡ (if in_window d len i then bit_at src (s + (i - d)) else bit_at dst i)
unfolding bitarray_copy
bitarray_copy-bits src s len dst d fits = copy_loop-bits len src s len dst d (omega arith) fits
