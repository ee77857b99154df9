-- ===== src/Marshal/ScalarCodec/Bytes.antt =====
-- scalar_codec.hpp: the bits of a value and those of its bytes.
use uavcan.Base.{
  ℕ, zero, suc, ◌+◌, ◌*◌, ◌/◌, ◌%◌, ◌^◌, ◌<◌, ◌≡◌, refl, sym, ap, ◌∙◌, List, [], ◌∷◌, length,
  get_or, IsBytes, digit, digit_zero, digit-mod, digit-div, arith,
}
use uavcan.Marshal.ScalarCodec.{bytes_of, value_of}

pub length-bytes_of : (size value : ℕ) → length (bytes_of size value) ≡ size
unfolding bytes_of
length-bytes_of zero value = refl
length-bytes_of (suc size) value = ap suc (length-bytes_of size (value / 2 ^ 8))

digit_split : (k x : ℕ) → digit (8 + k) x ≡ digit k (x / 2 ^ 8)
digit_split k x = sym (digit-div 8 k x)

-- Bit `r` of byte `q` of a value.
pub bytes_of-digit :
    (size value q r : ℕ)
    → q < size
    → r < 8
    → digit r (get_or (bytes_of size value) q 0) ≡ digit (8 * q + r) value
unfolding bytes_of
bytes_of-digit zero value q r lt small = absurd (omega arith)
bytes_of-digit (suc size) value zero r lt small =
    let index : r ≡ 8 * 0 + r = omega arith in
    digit-mod 8 r value small ∙ ap (λ k. digit k value) index
bytes_of-digit (suc size) value (suc q) r lt small =
    let index : 8 + (8 * q + r) ≡ 8 * suc q + r = omega arith in
    bytes_of-digit size (value / 2 ^ 8) q r (omega arith) small
    ∙ digit-div 8 (8 * q + r) value
    ∙ ap (λ k. digit k value) index

low_digit : (r b n : ℕ) → b < 2 ^ 8 → r < 8 → digit r (b + 2 ^ 8 * n) ≡ digit r b
low_digit r b n h small =
    let cut : (b + 2 ^ 8 * n) % 2 ^ 8 ≡ b = omega arith in
    sym (digit-mod 8 r (b + 2 ^ 8 * n) small) ∙ ap (digit r) cut

pub value_of-digit :
    (bytes : List ℕ) (q r : ℕ)
    → IsBytes bytes
    → r < 8
    → digit (8 * q + r) (value_of bytes) ≡ digit r (get_or bytes q 0)
unfolding value_of
value_of-digit [] q r h small = digit_zero (8 * q + r) ∙ sym (digit_zero r)
value_of-digit (b ∷ bs) zero r h small =
    let index : 8 * 0 + r ≡ r = omega arith in
    ap (λ k. digit k (b + 2 ^ 8 * value_of bs)) index ∙ low_digit r b (value_of bs) h.0 small
value_of-digit (b ∷ bs) (suc q) r h small =
    let index : 8 * suc q + r ≡ 8 + (8 * q + r) = omega arith in
    let rest : (b + 2 ^ 8 * value_of bs) / 2 ^ 8 ≡ value_of bs = omega (arith, h.0) in
    ap (λ k. digit k (b + 2 ^ 8 * value_of bs)) index
    ∙ digit_split (8 * q + r) (b + 2 ^ 8 * value_of bs)
    ∙ ap (digit (8 * q + r)) rest
    ∙ value_of-digit bs q r h.1 small
