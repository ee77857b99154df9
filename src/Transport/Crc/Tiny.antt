-- ===== src/Transport/Crc/Tiny.antt =====
-- The two builds of TransferCRC::add compute the same value.
use uavcan.Base.{
  ℕ, ◌*◌, ◌/◌, ◌%◌, ◌^◌, ◌<◌, ◌≡◌, refl, sym, ap, ap₂, ◌∙◌, arith, bit_and, bit_xor, ◌==◌, ==_iff,
  true, get_or, every, every-at, bit_and_mask, bit_xor-lt, bit_xor-zero, bit_xor_mod, bit_xor_comm,
  bit_xor_middle, bit_xor_mul, bit_xor_disjoint, ltb, ltb→lt,
}
use uavcan.Transport.Crc.{add, tiny_shift, tiny_shifts, tiny_add}
use uavcan.Transport.Crc.Table.{table}
use uavcan.Transport.Crc.Linear.{shifts-xor}

high_rounds : every 256 (λ i. tiny_shifts 8 (i * 2 ^ 8) == get_or table i 0) ≡ true
unfolding every tiny_shifts tiny_shift table
high_rounds = refl

low_rounds : every 256 (λ i. tiny_shifts 8 i == i * 2 ^ 8) ≡ true
unfolding every tiny_shifts tiny_shift
low_rounds = refl

words : every 256 (λ i. ltb (get_or table i 0) (2 ^ 16)) ≡ true
unfolding every table
words = refl

pub table-lt : (i : ℕ) → i < 256 → get_or table i 0 < 2 ^ 16
table-lt i h = ltb→lt _ _ (every-at 256 (λ j. ltb (get_or table j 0) (2 ^ 16)) i words h)

-- The eight rounds on a word, through its two bytes.
pub tiny_rounds :
    (hi lo : ℕ)
    → hi < 256
    → lo < 256
    → tiny_shifts 8 (bit_xor (hi * 2 ^ 8) lo) ≡ bit_xor (get_or table hi 0) (lo * 2 ^ 8)
tiny_rounds hi lo h l =
    shifts-xor 8 (hi * 2 ^ 8) lo
    ∙ ap₂ bit_xor
        ((==_iff _ _).0
          (every-at 256 (λ i. tiny_shifts 8 (i * 2 ^ 8) == get_or table i 0) hi high_rounds h))
        ((==_iff _ _).0 (every-at 256 (λ i. tiny_shifts 8 i == i * 2 ^ 8) lo low_rounds l))

-- A byte added to the upper byte of a word.
pub mixed_word :
    (value byte : ℕ)
    → value < 2 ^ 16
    → byte < 256
    → bit_xor value (byte * 2 ^ 8 % 2 ^ 16)
      ≡ bit_xor (bit_xor (value / 2 ^ 8) byte * 2 ^ 8) (value % 2 ^ 8)
mixed_word value byte h b =
    let hi = value / 2 ^ 8 in
    let lo = value % 2 ^ 8 in
    let whole : value ≡ bit_xor (hi * 2 ^ 8) lo =
      omega (arith, bit_xor_disjoint 8 hi lo (omega arith)) in
    let fits : byte * 2 ^ 8 % 2 ^ 16 ≡ byte * 2 ^ 8 = omega arith in
    ap₂ bit_xor whole (fits ∙ sym (bit_xor-zero (byte * 2 ^ 8)))
    ∙ bit_xor_middle (hi * 2 ^ 8) lo (byte * 2 ^ 8) 0
    ∙ ap₂ bit_xor (bit_xor_mul 8 hi byte) (bit_xor-zero lo)

-- `add` without its masks.
pub add_form :
    (value byte : ℕ)
    → value < 2 ^ 16
    → byte < 256
    → add value byte
      ≡ bit_xor (get_or table (bit_xor (value / 2 ^ 8) byte) 0) (value % 2 ^ 8 * 2 ^ 8)
unfolding add
add_form value byte h b =
    let x = bit_xor (value / 2 ^ 8) byte in
    let x-lt = bit_xor-lt 8 (value / 2 ^ 8) byte (omega arith) b in
    let index : bit_and (x % 2 ^ 16) 0xff ≡ x = omega (arith, bit_and_mask 8 (x % 2 ^ 16)) in
    let word = get_or table x 0 in
    let word-lt = table-lt x x-lt in
    let mask = bit_and_mask 16 (bit_xor (value * 2 ^ 8) word % 2 ^ 16) in
    let low : value * 2 ^ 8 % 2 ^ 16 ≡ value % 2 ^ 8 * 2 ^ 8 = omega arith in
    let word_mod : word % 2 ^ 16 ≡ word = omega arith in
    ap (λ i. bit_and (bit_xor (value * 2 ^ 8) (get_or table i 0) % 2 ^ 16) 0xffff) index
    ∙ omega (arith, mask, bit_xor_mod 16 (value * 2 ^ 8) word ∙ ap₂ bit_xor low word_mod)
    ∙ bit_xor_comm (value % 2 ^ 8 * 2 ^ 8) word

-- For a 16-bit value and a byte the table and the bitwise loop of the tiny build agree.
pub add-tiny_add :
    (value byte : ℕ) → value < 2 ^ 16 → byte < 256 → add value byte ≡ tiny_add value byte
unfolding tiny_add
add-tiny_add value byte h b =
    add_form value byte h b
    ∙ sym (
        ap (tiny_shifts 8) (mixed_word value byte h b)
        ∙ tiny_rounds (bit_xor (value / 2 ^ 8) byte) (value % 2 ^ 8)
            (bit_xor-lt 8 (value / 2 ^ 8) byte (omega arith) b) (omega arith))
