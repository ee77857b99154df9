-- ===== src/Transport/Crc/Detect.antt =====
-- What the transfer CRC detects, and that it stays a 16-bit value.
use uavcan.Base.{
  ℕ, zero, suc, ◌*◌, ◌%◌, ◌^◌, ◌<◌, ◌≡◌, ◌≢◌, refl, sym, ap, ◌∙◌, List, [], ◌∷◌, ◌++◌, arith,
  bit_xor, bit_and_mask, bit_xor-lt, bit_xor_odd, bit_xor_cancel, bit_xor_comm, IsBytes,
}
use uavcan.Transport.Crc.{add, add_bytes, tiny_shift, tiny_shifts, tiny_add}
use uavcan.Transport.Crc.Linear.{top, shift_form, shift-lt}
use uavcan.Transport.Crc.Tiny.{add-tiny_add}

pub add-lt : (value byte : ℕ) → add value byte < 2 ^ 16
unfolding add
add-lt value byte = omega (arith, bit_and_mask 16)

pub add_bytes-lt : (value : ℕ) (bs : List ℕ) → value < 2 ^ 16 → add_bytes value bs < 2 ^ 16
unfolding add_bytes
add_bytes-lt value [] h = h
add_bytes-lt value (b ∷ bs) h = add_bytes-lt (add value b) bs (add-lt value b)

pub add_bytes-append :
    (value : ℕ) (xs ys : List ℕ) → add_bytes value (xs ++ ys) ≡ add_bytes (add_bytes value xs) ys
unfolding add_bytes
add_bytes-append value [] ys = refl
add_bytes-append value (x ∷ xs) ys = add_bytes-append (add value x) xs ys

shift_odd : (v : ℕ) → tiny_shift v % 2 ≡ top v
unfolding top
shift_odd v =
    ap (λ t. t % 2) (shift_form v) ∙ bit_xor_odd (v * 2 % 2 ^ 16) (top v * 0x1021) ∙ omega arith

shift_injective : (a b : ℕ) → a < 2 ^ 16 → b < 2 ^ 16 → tiny_shift a ≡ tiny_shift b → a ≡ b
shift_injective a b h k e =
    let tops : top a ≡ top b = sym (shift_odd a) ∙ ap (λ t. t % 2) e ∙ shift_odd b in
    let forms = sym (shift_form a) ∙ e ∙ shift_form b in
    let lower =
      bit_xor_cancel (a * 2 % 2 ^ 16) (b * 2 % 2 ^ 16) (top a * 0x1021)
        (forms ∙ ap (λ t. bit_xor (b * 2 % 2 ^ 16) (t * 0x1021)) (sym tops)) in
    unfold top in omega (arith, tops, lower)

shifts_injective : (n a b : ℕ) → a < 2 ^ 16 → b < 2 ^ 16 → tiny_shifts n a ≡ tiny_shifts n b → a ≡ b
unfolding tiny_shifts
shifts_injective zero a b h k e = e
shifts_injective (suc n) a b h k e =
    shift_injective a b h k
      (shifts_injective n (tiny_shift a) (tiny_shift b) (shift-lt a) (shift-lt b) e)

add_forms :
    (v w b c : ℕ)
    → v < 2 ^ 16
    → w < 2 ^ 16
    → b < 256
    → c < 256
    → add v b ≡ add w c
    → bit_xor v (b * 2 ^ 8 % 2 ^ 16) ≡ bit_xor w (c * 2 ^ 8 % 2 ^ 16)
unfolding tiny_add
add_forms v w b c hv hw hb hc e =
    shifts_injective 8 _ _ (bit_xor-lt 16 v (b * 2 ^ 8 % 2 ^ 16) hv (omega arith))
      (bit_xor-lt 16 w (c * 2 ^ 8 % 2 ^ 16) hw (omega arith))
      (sym (add-tiny_add v b hv hb) ∙ e ∙ add-tiny_add w c hw hc)

-- From one value, different bytes give different values.
add_byte_injective : (v b c : ℕ) → v < 2 ^ 16 → b < 256 → c < 256 → add v b ≡ add v c → b ≡ c
add_byte_injective v b c hv hb hc e =
    let flip = λ (x : ℕ). bit_xor_comm (x * 2 ^ 8 % 2 ^ 16) v in
    omega (
      arith,
      bit_xor_cancel (b * 2 ^ 8 % 2 ^ 16) (c * 2 ^ 8 % 2 ^ 16) v
          (flip b ∙ add_forms v v b c hv hv hb hc e ∙ sym (flip c)),
    )

add_bytes_injective :
    (v w : ℕ) (bs : List ℕ)
    → v < 2 ^ 16
    → w < 2 ^ 16
    → IsBytes bs
    → add_bytes v bs ≡ add_bytes w bs
    → v ≡ w
unfolding add_bytes
add_bytes_injective v w [] hv hw ok e = e
add_bytes_injective v w (b ∷ bs) hv hw ok e = bit_xor_cancel v w (b * 2 ^ 8 % 2 ^ 16) (
    add_forms v w b b hv hw ok.0 ok.0
      (add_bytes_injective (add v b) (add w b) bs (add-lt v b) (add-lt w b) ok.1 e))

-- Two payloads of bytes that differ in exactly one byte, anywhere, have different CRCs, from any
-- 16-bit initial value.
pub add_bytes_detects :
    (value : ℕ) (xs ys : List ℕ) (b c : ℕ)
    → value < 2 ^ 16
    → b < 256
    → c < 256
    → IsBytes ys
    → b ≢ c
    → add_bytes value (xs ++ b ∷ ys) ≢ add_bytes value (xs ++ c ∷ ys)
add_bytes_detects value xs ys b c hv hb hc ok differ e =
    let mid = add_bytes value xs in
    let mid-lt = add_bytes-lt value xs hv in
    let split = λ (x : ℕ). add_bytes-append value xs (x ∷ ys) in
    let tails = sym (split b) ∙ e ∙ split c in
    differ (
      add_byte_injective mid b c mid-lt hb hc (
        add_bytes_injective (add mid b) (add mid c) ys (add-lt mid b) (add-lt mid c) ok
          (unfold add_bytes in tails)))
