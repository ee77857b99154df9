-- ===== src/Base/Digits.antt =====
-- The binary digits of a number, lowest first, and the bit operations digit by digit.
use Prim.Native.Nat.{
  ℕ, zero, suc, ◌+◌, ◌*◌, ◌/◌, ◌%◌, ◌^◌, ◌≤◌, ◌<◌, min, max, bit_and, bit_or, bit_xor,
}
use mathlib.Core.Path.{◌≡◌, refl, sym, ap, ap₂, ◌∙◌}
use native.Mathlib.Omega.{arith}
use uavcan.Base.Step.{bit_and_step, bit_or_step, bit_xor_step}
use uavcan.Base.Bits.{two_pow_suc, mul_two_pow_suc, mod_two_mul}
use native.Mathlib.Nat.{div-div-eq-div-mul}

unfoldable pub digit : ℕ → ℕ → ℕ
digit zero x = x % 2
digit (suc k) x = digit k (x / 2)

pub digit-lt : (k x : ℕ) → digit k x < 2
unfolding digit
digit-lt zero x = omega arith
digit-lt (suc k) x = digit-lt k (x / 2)

pub digit-bit_and : (k a b : ℕ) → digit k (bit_and a b) ≡ min (digit k a) (digit k b)
unfolding digit
digit-bit_and zero a b = omega (arith, bit_and_step a b)
digit-bit_and (suc k) a b =
    let half : bit_and a b / 2 ≡ bit_and (a / 2) (b / 2) = omega (arith, bit_and_step a b) in
    rw half (digit-bit_and k (a / 2) (b / 2))

pub digit-bit_or : (k a b : ℕ) → digit k (bit_or a b) ≡ max (digit k a) (digit k b)
unfolding digit
digit-bit_or zero a b = omega (arith, bit_or_step a b)
digit-bit_or (suc k) a b =
    let half : bit_or a b / 2 ≡ bit_or (a / 2) (b / 2) = omega (arith, bit_or_step a b) in
    rw half (digit-bit_or k (a / 2) (b / 2))

pub digit-bit_xor : (k a b : ℕ) → digit k (bit_xor a b) ≡ (digit k a + digit k b) % 2
unfolding digit
digit-bit_xor zero a b = omega (arith, bit_xor_step a b)
digit-bit_xor (suc k) a b =
    let half : bit_xor a b / 2 ≡ bit_xor (a / 2) (b / 2) = omega (arith, bit_xor_step a b) in
    rw half (digit-bit_xor k (a / 2) (b / 2))

pub digit_zero : (k : ℕ) → digit k 0 ≡ 0
unfolding digit
digit_zero zero = refl
digit_zero (suc k) = digit_zero k

-- Numbers with the same digits are the same.
same_digits_below : (n a b : ℕ) → a ≤ n → b ≤ n → ((k : ℕ) → digit k a ≡ digit k b) → a ≡ b
unfolding digit
same_digits_below zero a b p q same = omega arith
same_digits_below (suc n) a b p q same =
    let halves : a / 2 ≡ b / 2 =
      same_digits_below n (a / 2) (b / 2) (omega arith) (omega arith) (λ k. same (suc k)) in
    let lowest : a % 2 ≡ b % 2 = same 0 in omega arith

pub same_digits : (a b : ℕ) → ((k : ℕ) → digit k a ≡ digit k b) → a ≡ b
same_digits a b same = same_digits_below (max a b) a b (omega arith) (omega arith) same

-- Above a number's width all digits are 0.
pub digit_above : (w k x : ℕ) → x < 2 ^ w → w ≤ k → digit k x ≡ 0
unfolding digit
digit_above zero k x h le = let e : x ≡ 0 = omega arith in rw e (digit_zero k)
digit_above (suc w) zero x h le = absurd (omega arith)
digit_above (suc w) (suc k) x h le =
    digit_above w k (x / 2) (omega (arith, two_pow_suc w)) (omega arith)

add-suc_left : (m n : ℕ) → suc m + n ≡ suc (m + n)
add-suc_left m n = omega arith

two_pow-pos : (w : ℕ) → 1 ≤ 2 ^ w
two_pow-pos zero = omega arith
two_pow-pos (suc w) = omega (arith, two_pow_suc w, two_pow-pos w)

-- A shift to the left, to the right, and a cut to a width.
pub digit-mul : (s k x : ℕ) → digit (s + k) (x * 2 ^ s) ≡ digit k x
unfolding digit
digit-mul zero k x =
    let index : 0 + k ≡ k = omega arith in
    let value : x * 1 ≡ x = omega arith in ap₂ digit index value
digit-mul (suc s) k x =
    let half : x * 2 ^ suc s / 2 ≡ x * 2 ^ s = omega (arith, mul_two_pow_suc x s) in
    ap (λ n. digit n (x * 2 ^ suc s)) (add-suc_left s k) ∙ ap (digit (s + k)) half ∙ digit-mul s k x

pub digit-div : (s k x : ℕ) → digit k (x / 2 ^ s) ≡ digit (s + k) x
unfolding digit
digit-div zero k x =
    let index : k ≡ 0 + k = omega arith in
    let value : x / 1 ≡ x = omega arith in ap₂ digit index value
digit-div (suc s) k x =
    ap (λ t. digit k (x / t)) (two_pow_suc s)
    ∙ ap (digit k) (sym (div-div-eq-div-mul x 2 (2 ^ s)))
    ∙ digit-div s k (x / 2)
    ∙ ap (λ n. digit n x) (sym (add-suc_left s k))

pub digit-mod : (w k x : ℕ) → k < w → digit k (x % 2 ^ w) ≡ digit k x
unfolding digit
digit-mod zero k x h = absurd (omega arith)
digit-mod (suc w) zero x h =
    omega (arith, ap (λ t. x % t) (two_pow_suc w), mod_two_mul x (2 ^ w) (two_pow-pos w))
digit-mod (suc w) (suc k) x h =
    let half : x % 2 ^ suc w / 2 ≡ x / 2 % 2 ^ w =
      omega (arith, ap (λ t. x % t) (two_pow_suc w), mod_two_mul x (2 ^ w) (two_pow-pos w)) in
    rw half (digit-mod w k (x / 2) (omega arith))

bit_and-le_below : (n a b : ℕ) → a ≤ n → bit_and a b ≤ a
bit_and-le_below zero a b h =
    let none_left : a ≡ 0 = omega arith in
    let all_zero : bit_and a b ≡ 0 = same_digits (bit_and a b) 0 (λ k.
      digit-bit_and k a b
      ∙ ap (λ t. min (digit k t) (digit k b)) none_left
      ∙ ap (λ t. min t (digit k b)) (digit_zero k)
      ∙ sym (digit_zero k ∙ omega arith)) in
    omega arith
bit_and-le_below (suc n) a b h =
    omega (arith, bit_and_step a b, bit_and-le_below n (a / 2) (b / 2) (omega arith))

pub bit_and-le : (a b : ℕ) → bit_and a b ≤ a
bit_and-le a b = bit_and-le_below a a b (omega arith)
