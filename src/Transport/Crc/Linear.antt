-- ===== src/Transport/Crc/Linear.antt =====
-- The shift register of the CRC is linear over exclusive or.
use uavcan.Base.{
  ℕ, zero, suc, ◌+◌, ◌*◌, ◌/◌, ◌%◌, ◌^◌, ◌<◌, ◌≡◌, refl, sym, ap, ap₂, ◌∙◌, ◌⊎◌, inl, inr, arith,
  bit_xor, bit_and_bit, bit_xor_div, bit_xor_odd, bit_xor_double, bit_xor_mod, bit_xor-lt,
  bit_xor-zero, bit_xor_middle,
}
use uavcan.Transport.Crc.{tiny_shift, tiny_shifts}

-- The bit that the next round pushes out.
unfoldable pub top : ℕ → ℕ
top v = v / 2 ^ 15 % 2

top_cases : (v : ℕ) → (top v ≡ 0) ⊎ (top v ≡ 1)
unfolding top
top_cases v = omega arith

-- One round without a branch.
pub shift_form : (v : ℕ) → tiny_shift v ≡ bit_xor (v * 2 % 2 ^ 16) (top v * 0x1021)
unfolding tiny_shift top
shift_form v =
    let kept = bit_xor-zero (v * 2 % 2 ^ 16) in
    let bit = bit_and_bit 15 v in
    let fits = bit_xor-lt 16 (v * 2 % 2 ^ 16) 0x1021 (omega arith) (omega arith) in
    elim (top_cases v) [
      | inl e ↦ rw e (ground (arith, kept, bit))
      | inr e ↦ rw e (ground (arith, fits, bit))
    ]

pub shift-lt : (v : ℕ) → tiny_shift v < 2 ^ 16
unfolding tiny_shift
shift-lt v = ground arith

constant_xor : (a b : ℕ) → bit_xor (top a * 0x1021) (top b * 0x1021) ≡ top (bit_xor a b) * 0x1021
constant_xor a b =
    let sum : top (bit_xor a b) ≡ (top a + top b) % 2 =
      unfold top in
      (ap (λ t. t % 2) (bit_xor_div 15 a b)
        ∙ bit_xor_odd (a / 2 ^ 15) (b / 2 ^ 15)
        ∙ omega arith) in
    rw sum (elim (top_cases a) [
      | inl e ↦ elim (top_cases b) [ inl f ↦ rw (e, f) refl | inr f ↦ rw (e, f) refl ]
      | inr e ↦ elim (top_cases b) [ inl f ↦ rw (e, f) refl | inr f ↦ rw (e, f) refl ]
    ])

doubled_xor : (a b : ℕ) → bit_xor a b * 2 % 2 ^ 16 ≡ bit_xor (a * 2 % 2 ^ 16) (b * 2 % 2 ^ 16)
doubled_xor a b =
    let flip : (x : ℕ) → x * 2 ≡ 2 * x = λ x. omega arith in
    ap (λ t. t % 2 ^ 16) (flip (bit_xor a b) ∙ sym (bit_xor_double a b))
    ∙ bit_xor_mod 16 (2 * a) (2 * b)
    ∙ ap₂ (λ s t. bit_xor (s % 2 ^ 16) (t % 2 ^ 16)) (sym (flip a)) (sym (flip b))

pub shift-xor : (a b : ℕ) → tiny_shift (bit_xor a b) ≡ bit_xor (tiny_shift a) (tiny_shift b)
shift-xor a b =
    shift_form (bit_xor a b)
    ∙ ap₂ bit_xor (doubled_xor a b) (sym (constant_xor a b))
    ∙ bit_xor_middle (a * 2 % 2 ^ 16) (b * 2 % 2 ^ 16) (top a * 0x1021) (top b * 0x1021)
    ∙ ap₂ bit_xor (sym (shift_form a)) (sym (shift_form b))

pub shifts-xor :
    (n a b : ℕ) → tiny_shifts n (bit_xor a b) ≡ bit_xor (tiny_shifts n a) (tiny_shifts n b)
unfolding tiny_shifts
shifts-xor zero a b = refl
shifts-xor (suc n) a b =
    ap (tiny_shifts n) (shift-xor a b) ∙ shifts-xor n (tiny_shift a) (tiny_shift b)
