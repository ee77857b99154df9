-- ===== src/Transport/Listener/Payload.antt =====
-- The CRC that the listener computes piece by piece is that of the whole payload.
use uavcan.Base.{
  ℕ, zero, suc, ◌+◌, ◌≤◌, ◌<◌, ◌≡◌, sym, ap, ◌∙◌, arith, List, [], ◌==◌, length, take, drop, min,
  leb, Bool-cases, inl, inr, length-take, take-append-drop, drop-drop, drop_all, length-eq_zero,
}
use uavcan.Transport.Crc.{add_bytes}
use uavcan.Transport.Crc.Detect.{add_bytes-append}
use uavcan.Transport.TransferBuffer.Entry
use uavcan.Transport.TransferBuffer.Entry.{Entry}
use uavcan.Transport.TransferBuffer.Entry.Refines
use uavcan.Transport.TransferBuffer.Entry.Refines.{contents, read-contents, length-contents}
use uavcan.Transport.Listener.{Listener, payload_crc, check_payload_crc}

drop-min : (n : ℕ) (xs : List ℕ) → drop (min n (length xs)) xs ≡ drop n xs
drop-min n xs = elim (Bool-cases (leb n (length xs))) [
  | inl t ↦ let n-le : n ≤ length xs = ground arith in ap (λ k. drop k xs) (omega (arith, n-le))
  | inr f ↦
      let over : length xs ≤ n = ground arith in
      drop_all (min n (length xs)) xs (omega (arith, over)) ∙ sym (drop_all n xs over)
]

-- The loop, from an offset on, with fuel for one round more than there are bytes left.
payload_crc-drop :
    (fuel : ℕ) (e : Entry) (offset crc : ℕ)
    → Refines.IsValid e
    → e.max_write_pos < offset + fuel
    → payload_crc fuel e offset crc ≡ add_bytes crc (drop offset (contents e))
unfolding payload_crc add_bytes
payload_crc-drop zero e offset crc v enough =
    let gone = drop_all offset (contents e) (omega (arith, length-contents e v)) in
    sym (ap (add_bytes crc) gone)
payload_crc-drop (suc fuel) e offset crc v enough =
    let left = drop offset (contents e) in
    let buf = Entry.read e offset 16 in
    let got : buf ≡ take 16 left = read-contents e offset 16 v in
    let got-len : length buf ≡ min 16 (length left) = ap length got ∙ length-take 16 left in
    elim (Bool-cases (length buf == 0)) [
      | inl t ↦
          let nothing : left ≡ [] = length-eq_zero left (ground (arith, got-len)) in
          rw t (sym (ap (add_bytes crc) nothing))
      | inr f ↦
          let more : 0 < length buf = ground arith in
          let rest =
            payload_crc-drop fuel e (offset + length buf) (add_bytes crc buf) v
              (omega (arith, more)) in
          let behind : drop (offset + length buf) (contents e) ≡ drop 16 left =
            sym (drop-drop (length buf) offset (contents e))
            ∙ ap (λ k. drop k left) got-len
            ∙ drop-min 16 left in
          rw f (
            rest
            ∙ ap (add_bytes (add_bytes crc buf)) behind
            ∙ ap (λ x. add_bytes (add_bytes crc x) (drop 16 left)) got
            ∙ sym (add_bytes-append crc (take 16 left) (drop 16 left))
            ∙ ap (add_bytes crc) (take-append-drop 16 left))
    ]

-- The check of a valid buffer compares the CRC, from the listener's base on, of all that the buffer
-- holds.
pub check_payload_crc-contents :
    (l : Listener) (expected : ℕ) (e : Entry)
    → Refines.IsValid e
    → check_payload_crc l expected e ≡ (add_bytes l.crc_base (contents e) == expected)
unfolding check_payload_crc
check_payload_crc-contents l expected e v =
    ap (λ c. c == expected) (payload_crc-drop (e.max_write_pos + 1) e 0 l.crc_base v (omega arith))
