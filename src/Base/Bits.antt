-- ===== src/Base/Bits.antt =====
-- Laws of `&`, `|` and `^` at every width, from the lowest-digit equations.
use Prim.Native.Nat.{ℕ, zero, suc, ◌+◌, ◌-◌, ◌*◌, ◌/◌, ◌%◌, ◌^◌, ◌≤◌, ◌<◌}
use Prim.Native.Nat.{bit_and, bit_or, bit_xor, bit_and-bitwise, bit_or-bitwise, min, max}
use native.Mathlib.Nat.{pow-suc, one-le-pow, div-add-mod, add-mul-mod_self_left, mod-eq_of_lt}
use native.Mathlib.Nat.{mod-lt, div-div-eq-div-mul}
use native.Mathlib.Omega.{arith}
use mathlib.Core.Path.{◌≡◌, refl, sym, ap, ◌∙◌}
use uavcan.Base.Step.{bit_and_step, bit_or_step, bit_xor_step}

-- The laws are proved below a bound `n` that halves at each step.
bit_or_and_below : (n a b : ℕ) → a ≤ n → b ≤ n → bit_or a b + bit_and a b ≡ a + b
bit_or_and_below zero zero zero h k = refl
bit_or_and_below zero zero (suc b) h k = absurd (omega arith)
bit_or_and_below zero (suc a) b h k = absurd (omega arith)
bit_or_and_below (suc n) a b h k = omega (
  arith,
  bit_or_step a b,
  bit_and_step a b,
  bit_or_and_below n (a / 2) (b / 2) (omega arith) (omega arith),
)

pub bit_or_and : (a b : ℕ) → bit_or a b + bit_and a b ≡ a + b
bit_or_and a b = bit_or_and_below (a + b) a b (omega arith) (omega arith)

bit_or_comm_below : (n a b : ℕ) → a ≤ n → b ≤ n → bit_or a b ≡ bit_or b a
bit_or_comm_below zero zero zero h k = refl
bit_or_comm_below zero zero (suc b) h k = absurd (omega arith)
bit_or_comm_below zero (suc a) b h k = absurd (omega arith)
bit_or_comm_below (suc n) a b h k = omega (
  arith,
  bit_or_step a b,
  bit_or_step b a,
  bit_or_comm_below n (a / 2) (b / 2) (omega arith) (omega arith),
)

pub bit_or_comm : (a b : ℕ) → bit_or a b ≡ bit_or b a
bit_or_comm a b = bit_or_comm_below (a + b) a b (omega arith) (omega arith)

bit_xor_comm_below : (n a b : ℕ) → a ≤ n → b ≤ n → bit_xor a b ≡ bit_xor b a
bit_xor_comm_below zero zero zero h k = refl
bit_xor_comm_below zero zero (suc b) h k = absurd (omega arith)
bit_xor_comm_below zero (suc a) b h k = absurd (omega arith)
bit_xor_comm_below (suc n) a b h k = omega (
  arith,
  bit_xor_step a b,
  bit_xor_step b a,
  bit_xor_comm_below n (a / 2) (b / 2) (omega arith) (omega arith),
)

pub bit_xor_comm : (a b : ℕ) → bit_xor a b ≡ bit_xor b a
bit_xor_comm a b = bit_xor_comm_below (a + b) a b (omega arith) (omega arith)

pub bit_xor_half : (a b : ℕ) → bit_xor a b / 2 ≡ bit_xor (a / 2) (b / 2)
bit_xor_half a b = omega (arith, bit_xor_step a b)

pub bit_xor_odd : (a b : ℕ) → bit_xor a b % 2 ≡ (a + b) % 2
bit_xor_odd a b = omega (arith, bit_xor_step a b)

bit_xor_assoc_below :
    (n a b c : ℕ) → a ≤ n → b ≤ n → c ≤ n → bit_xor (bit_xor a b) c ≡ bit_xor a (bit_xor b c)
bit_xor_assoc_below zero zero zero zero p q r = refl
bit_xor_assoc_below zero zero zero (suc c) p q r = absurd (omega arith)
bit_xor_assoc_below zero zero (suc b) c p q r = absurd (omega arith)
bit_xor_assoc_below zero (suc a) b c p q r = absurd (omega arith)
bit_xor_assoc_below (suc n) a b c p q r =
    let ih =
      bit_xor_assoc_below n (a / 2) (b / 2) (c / 2) (omega arith) (omega arith) (omega arith) in
    let lhs =
      bit_xor_step (bit_xor a b) c
      ∙ ap (λ t. bit_xor t (c / 2) * 2 + (bit_xor a b + c) % 2) (bit_xor_half a b) in
    let rhs =
      bit_xor_step a (bit_xor b c)
      ∙ ap (λ t. bit_xor (a / 2) t * 2 + (a + bit_xor b c) % 2) (bit_xor_half b c) in
    omega (arith, ih, lhs, rhs, bit_xor_odd a b, bit_xor_odd b c)

pub bit_xor_assoc : (a b c : ℕ) → bit_xor (bit_xor a b) c ≡ bit_xor a (bit_xor b c)
bit_xor_assoc a b c =
    bit_xor_assoc_below (a + b + c) a b c (omega arith) (omega arith) (omega arith)

bit_xor-zero_below : (n a : ℕ) → a ≤ n → bit_xor a 0 ≡ a
bit_xor-zero_below zero zero h = refl
bit_xor-zero_below zero (suc a) h = absurd (omega arith)
bit_xor-zero_below (suc n) a h =
    omega (arith, bit_xor_step a 0, bit_xor-zero_below n (a / 2) (omega arith))

pub bit_xor-zero : (a : ℕ) → bit_xor a 0 ≡ a
bit_xor-zero a = bit_xor-zero_below a a (omega arith)

pub zero-bit_or : (b : ℕ) → bit_or 0 b ≡ b
zero-bit_or b = bit_or-bitwise 0 b

zero-bit_and : (b : ℕ) → bit_and 0 b ≡ 0
zero-bit_and b = bit_and-bitwise 0 b

pub two_pow_suc : (k : ℕ) → 2 ^ suc k ≡ 2 * 2 ^ k
two_pow_suc k = omega (arith, pow-suc 2 k)

pub mul_two_pow_suc : (q k : ℕ) → q * 2 ^ suc k ≡ 2 * (q * 2 ^ k)
mul_two_pow_suc q k = omega (arith, ap (λ (t : ℕ). q * t) (pow-suc 2 k))

-- Shifted fields do not meet the low bits.
pub bit_and_disjoint : (k q r : ℕ) → r < 2 ^ k → bit_and (q * 2 ^ k) r ≡ 0
bit_and_disjoint zero q zero h =
    let e = bit_or_and (q * 2 ^ 0) 0 in
    omega (arith, e, bit_or_comm (q * 2 ^ 0) 0, zero-bit_or (q * 2 ^ 0))
bit_and_disjoint zero q (suc r) h = absurd (omega arith)
bit_and_disjoint (suc k) q r h =
    let e = mul_two_pow_suc q k in
    let half : q * 2 ^ suc k / 2 ≡ q * 2 ^ k = omega arith in
    let ih = bit_and_disjoint k q (r / 2) (omega (arith, two_pow_suc k)) in
    omega (
      arith,
      bit_and_step (q * 2 ^ suc k) r
          ∙ ap (λ t. min (q * 2 ^ suc k % 2) (r % 2) + 2 * bit_and t (r / 2)) half,
      ih,
    )

-- `(q << k) | r` is a sum when `r` fits `k` bits.
pub bit_or_disjoint : (k q r : ℕ) → r < 2 ^ k → bit_or (q * 2 ^ k) r ≡ q * 2 ^ k + r
bit_or_disjoint k q r h = omega (arith, bit_or_and (q * 2 ^ k) r, bit_and_disjoint k q r h)

bit_or_half : (a b : ℕ) → bit_or a b / 2 ≡ bit_or (a / 2) (b / 2)
bit_or_half a b = omega (arith, bit_or_step a b)

bit_or_odd : (a b : ℕ) → bit_or a b % 2 ≡ max (a % 2) (b % 2)
bit_or_odd a b = omega (arith, bit_or_step a b)

bit_or_assoc_below :
    (n a b c : ℕ) → a ≤ n → b ≤ n → c ≤ n → bit_or (bit_or a b) c ≡ bit_or a (bit_or b c)
bit_or_assoc_below zero zero zero zero p q r = refl
bit_or_assoc_below zero zero zero (suc c) p q r = absurd (omega arith)
bit_or_assoc_below zero zero (suc b) c p q r = absurd (omega arith)
bit_or_assoc_below zero (suc a) b c p q r = absurd (omega arith)
bit_or_assoc_below (suc n) a b c p q r =
    let ih =
      bit_or_assoc_below n (a / 2) (b / 2) (c / 2) (omega arith) (omega arith) (omega arith) in
    let lhs =
      bit_or_step (bit_or a b) c
      ∙ ap (λ t. max (bit_or a b % 2) (c % 2) + 2 * bit_or t (c / 2)) (bit_or_half a b) in
    let rhs =
      bit_or_step a (bit_or b c)
      ∙ ap (λ t. max (a % 2) (bit_or b c % 2) + 2 * bit_or (a / 2) t) (bit_or_half b c) in
    omega (arith, ih, lhs, rhs, bit_or_odd a b, bit_or_odd b c)

pub bit_or_assoc : (a b c : ℕ) → bit_or (bit_or a b) c ≡ bit_or a (bit_or b c)
bit_or_assoc a b c = bit_or_assoc_below (a + b + c) a b c (omega arith) (omega arith) (omega arith)

pub mod_two_mul : (a m : ℕ) → 1 ≤ m → a % (2 * m) ≡ a / 2 % m * 2 + a % 2
mod_two_mul a m h =
    let split : a ≡ (a / 2 % m * 2 + a % 2) + 2 * m * (a / 2 / m) =
      omega (arith, div-add-mod (a / 2) m) in
    ap (λ t. t % (2 * m)) split
    ∙ add-mul-mod_self_left (a / 2 % m * 2 + a % 2) (2 * m) (a / 2 / m)
    ∙ mod-eq_of_lt (omega (arith, mod-lt (a / 2) h))

bit_and-zero : (a : ℕ) → bit_and a 0 ≡ 0
bit_and-zero a = omega (arith, bit_or_and a 0, bit_or_comm a 0, zero-bit_or a)

-- A mask of `k` low bits is the remainder by `2 ^ k`.
pub bit_and_mask : (k a : ℕ) → bit_and a (2 ^ k - 1) ≡ a % 2 ^ k
bit_and_mask zero a = omega (arith, bit_and-zero a)
bit_and_mask (suc k) a =
    let p = two_pow_suc k in
    let pos = one-le-pow k 2 (omega arith) in
    let half : (2 ^ suc k - 1) / 2 ≡ 2 ^ k - 1 = omega arith in
    let step =
      bit_and_step a (2 ^ suc k - 1)
      ∙ ap (λ t. min (a % 2) ((2 ^ suc k - 1) % 2) + 2 * bit_and (a / 2) t) half in
    omega (arith, step, bit_and_mask k (a / 2), mod_two_mul a (2 ^ k) pos, ap (λ t. a % t) p)

-- A mask of the one bit `k` tests that bit.
pub bit_and_bit : (k a : ℕ) → bit_and a (2 ^ k) ≡ (a / 2 ^ k) % 2 * 2 ^ k
bit_and_bit zero a = omega (arith, bit_and_step a 1, bit_and-zero (a / 2))
bit_and_bit (suc k) a =
    let p = two_pow_suc k in
    let half : 2 ^ suc k / 2 ≡ 2 ^ k = omega arith in
    let step =
      bit_and_step a (2 ^ suc k)
      ∙ ap (λ t. min (a % 2) (2 ^ suc k % 2) + 2 * bit_and (a / 2) t) half in
    let x = a / 2 ^ suc k % 2 in
    let quot : a / 2 / 2 ^ k % 2 ≡ x =
      ap (λ t. t % 2) (div-div-eq-div-mul a 2 (2 ^ k) ∙ ap (λ t. a / t) (sym p)) in
    let ih = bit_and_bit k (a / 2) ∙ ap (λ t. t * 2 ^ k) quot in
    omega (arith, step, ih, mul_two_pow_suc x k)

-- A bit that is clear is added by `|`.
pub bit_or_bit : (k a : ℕ) → a / 2 ^ k % 2 ≡ 0 → bit_or a (2 ^ k) ≡ a + 2 ^ k
bit_or_bit k a h = omega (arith, bit_or_and a (2 ^ k), bit_and_bit k a ∙ ap (λ t. t * 2 ^ k) h)

-- A field above the bits that are there.
pub bit_or_above : (k q r : ℕ) → r < 2 ^ k → bit_or r (q * 2 ^ k) ≡ q * 2 ^ k + r
bit_or_above k q r h = bit_or_comm r (q * 2 ^ k) ∙ bit_or_disjoint k q r h
