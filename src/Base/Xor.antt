-- ===== src/Base/Xor.antt =====
-- Exclusive or acts digit by digit: how it meets shifts, masks and bounds.
use Prim.Native.Nat.{ℕ, zero, suc, ◌+◌, ◌*◌, ◌/◌, ◌%◌, ◌^◌, ◌≤◌, ◌<◌, bit_xor}
use native.Mathlib.Nat.{one-le-pow, div-div-eq-div-mul}
use native.Mathlib.Omega.{arith}
use mathlib.Core.Path.{◌≡◌, refl, sym, ap, ap₂, ◌∙◌}
use uavcan.Base.Step.{bit_xor_step}
use uavcan.Base.Bits.{
  bit_xor_comm, bit_xor_assoc, bit_xor-zero, bit_xor_half, bit_xor_odd, two_pow_suc,
  mul_two_pow_suc, mod_two_mul,
}

pub zero-bit_xor : (a : ℕ) → bit_xor 0 a ≡ a
zero-bit_xor a = bit_xor_comm 0 a ∙ bit_xor-zero a

pub bit_xor_div : (k a b : ℕ) → bit_xor a b / 2 ^ k ≡ bit_xor (a / 2 ^ k) (b / 2 ^ k)
bit_xor_div zero a b =
    let one : (x : ℕ) → x / 2 ^ 0 ≡ x = λ x. omega arith in
    one (bit_xor a b) ∙ ap₂ bit_xor (sym (one a)) (sym (one b))
bit_xor_div (suc k) a b =
    let shift : (x : ℕ) → x / 2 ^ suc k ≡ x / 2 / 2 ^ k =
      λ x. ap (λ t. x / t) (two_pow_suc k) ∙ sym (div-div-eq-div-mul x 2 (2 ^ k)) in
    shift (bit_xor a b)
    ∙ ap (λ t. t / 2 ^ k) (bit_xor_half a b)
    ∙ bit_xor_div k (a / 2) (b / 2)
    ∙ ap₂ bit_xor (sym (shift a)) (sym (shift b))

pub bit_xor_double : (a b : ℕ) → bit_xor (2 * a) (2 * b) ≡ 2 * bit_xor a b
bit_xor_double a b =
    let halves : (x : ℕ) → 2 * x / 2 ≡ x = λ x. omega arith in
    omega (
      arith,
      bit_xor_step (2 * a) (2 * b)
          ∙ ap (λ t. t * 2 + (2 * a + 2 * b) % 2) (ap₂ bit_xor (halves a) (halves b)),
    )

pub bit_xor_mod : (k a b : ℕ) → bit_xor a b % 2 ^ k ≡ bit_xor (a % 2 ^ k) (b % 2 ^ k)
bit_xor_mod zero a b =
    let one : (x : ℕ) → x % 2 ^ 0 ≡ 0 = λ x. omega arith in
    one (bit_xor a b) ∙ ap₂ bit_xor (sym (one a)) (sym (one b))
bit_xor_mod (suc k) a b =
    let split : (x : ℕ) → x % 2 ^ suc k ≡ x / 2 % 2 ^ k * 2 + x % 2 =
      λ x. ap (λ t. x % t) (two_pow_suc k) ∙ mod_two_mul x (2 ^ k) (one-le-pow k 2 (omega arith)) in
    let halves : (x : ℕ) → x % 2 ^ suc k / 2 ≡ x / 2 % 2 ^ k = λ x. omega (arith, split x) in
    let right =
      bit_xor_step (a % 2 ^ suc k) (b % 2 ^ suc k)
      ∙ ap (λ t. t * 2 + (a % 2 ^ suc k + b % 2 ^ suc k) % 2) (ap₂ bit_xor (halves a) (halves b)) in
    omega (
      arith,
      split (bit_xor a b),
      right,
      split a,
      split b,
      bit_xor_odd a b,
      bit_xor_mod k (a / 2) (b / 2),
      ap (λ t. t % 2 ^ k) (bit_xor_half a b),
    )

pub bit_xor-lt : (k a b : ℕ) → a < 2 ^ k → b < 2 ^ k → bit_xor a b < 2 ^ k
bit_xor-lt zero a b h g =
    let a-zero : a ≡ 0 = omega arith in
    let b-zero : b ≡ 0 = omega arith in omega (arith, ap₂ bit_xor a-zero b-zero)
bit_xor-lt (suc k) a b h g = omega (
  arith,
  bit_xor_step a b,
  two_pow_suc k,
  bit_xor-lt k (a / 2) (b / 2) (omega (arith, two_pow_suc k)) (omega (arith, two_pow_suc k)),
)

pub bit_xor_self : (a : ℕ) → bit_xor a a ≡ 0
bit_xor_self a = below a a (omega arith)
  where
    below : (n x : ℕ) → x ≤ n → bit_xor x x ≡ 0
    below zero zero h = refl
    below zero (suc x) h = absurd (omega arith)
    below (suc n) x h = omega (arith, bit_xor_step x x, below n (x / 2) (omega arith))

pub bit_xor_cancel : (a b c : ℕ) → bit_xor a c ≡ bit_xor b c → a ≡ b
bit_xor_cancel a b c h =
    let undo : (x : ℕ) → bit_xor (bit_xor x c) c ≡ x =
      λ x. bit_xor_assoc x c c ∙ ap (bit_xor x) (bit_xor_self c) ∙ bit_xor-zero x in
    sym (undo a) ∙ ap (λ t. bit_xor t c) h ∙ undo b

-- Two pairs regrouped.
pub bit_xor_middle :
    (a b c d : ℕ) → bit_xor (bit_xor a b) (bit_xor c d) ≡ bit_xor (bit_xor a c) (bit_xor b d)
bit_xor_middle a b c d =
    bit_xor_assoc a b (bit_xor c d)
    ∙ ap (bit_xor a)
        (sym (bit_xor_assoc b c d) ∙ ap (λ t. bit_xor t d) (bit_xor_comm b c) ∙ bit_xor_assoc c b d)
    ∙ sym (bit_xor_assoc a c (bit_xor b d))

-- Fields that do not meet.
pub bit_xor_disjoint : (k q r : ℕ) → r < 2 ^ k → bit_xor (q * 2 ^ k) r ≡ q * 2 ^ k + r
bit_xor_disjoint zero q r h =
    let r-zero : r ≡ 0 = omega arith in
    omega (arith, ap (bit_xor (q * 2 ^ 0)) r-zero, bit_xor-zero (q * 2 ^ 0))
bit_xor_disjoint (suc k) q r h =
    let e = mul_two_pow_suc q k in
    let half : q * 2 ^ suc k / 2 ≡ q * 2 ^ k = omega arith in
    let ih = bit_xor_disjoint k q (r / 2) (omega (arith, two_pow_suc k)) in
    let step =
      bit_xor_step (q * 2 ^ suc k) r
      ∙ ap (λ t. bit_xor t (r / 2) * 2 + (q * 2 ^ suc k + r) % 2) half in
    omega (arith, step, ih)

pub bit_xor_mul : (k a b : ℕ) → bit_xor (a * 2 ^ k) (b * 2 ^ k) ≡ bit_xor a b * 2 ^ k
bit_xor_mul zero a b =
    let one : (x : ℕ) → x * 2 ^ 0 ≡ x = λ x. omega arith in
    ap₂ bit_xor (one a) (one b) ∙ sym (one (bit_xor a b))
bit_xor_mul (suc k) a b =
    ap₂ bit_xor (mul_two_pow_suc a k) (mul_two_pow_suc b k)
    ∙ bit_xor_double (a * 2 ^ k) (b * 2 ^ k)
    ∙ ap (λ t. 2 * t) (bit_xor_mul k a b)
    ∙ sym (mul_two_pow_suc (bit_xor a b) k)
