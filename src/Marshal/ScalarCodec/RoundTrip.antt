-- ===== src/Marshal/ScalarCodec/RoundTrip.antt =====
-- scalar_codec.hpp and uc_scalar_codec.cpp: a scalar that is encoded is decoded again.
use uavcan.Base.{
  ℕ, ◌+◌, ◌-◌, ◌*◌, ◌/◌, ◌%◌, ◌^◌, ◌≤◌, ◌<◌, ◌≡◌, ◌≢◌, refl, sym, ap, ap₂, ◌∙◌, inl, inr, true,
  false, List, length, get_or, replicate, length-replicate, IsBytes, ltb, ◌==◌, ==_ne, ==_self,
  if◌then◌else◌, Bool-cases, digit, digit-mod, digit-div, digit-mul, digit_above, same_digits,
  arith,
}
use uavcan.Marshal.BitArray.{bit_at}
use uavcan.Marshal.BitArray.Copied.{get_or-set}
use uavcan.Marshal.BitStream
use uavcan.Marshal.BitStream.{TransferBuffer, BitStream, result_ok, bitlen_to_bytelen}
use uavcan.Marshal.BitStream.Written.{IsBuffer, IsCached}
use uavcan.Marshal.BitStream.RoundTrip.{read-write_bits}
use uavcan.Marshal.ScalarCodec.{
  ScalarType, bytes_of, value_of, clear_extra_bits, fix_twos_complement, align_left, align_right,
  encode_bytes, decode_bytes, encode, decode,
}
use uavcan.Marshal.ScalarCodec.Signs.{InRange, clear_extra_bits-lt, fix-clear}
use uavcan.Marshal.ScalarCodec.Bytes.{length-bytes_of, bytes_of-digit, value_of-digit}
use uavcan.Marshal.ScalarCodec.Received.{
  set-IsBytes, unset_bit, replicate-IsBytes, get_or-IsBytes, read-IsBytes,
}

module _ (size bitlen v : ℕ) (fits : bitlen ≤ 8 * size) (word : v < 2 ^ bitlen) where
  abbrev encoded : List ℕ
  encoded = align_left (bytes_of size v) bitlen

  abbrev raw : List ℕ
  raw = bytes_of size v

  abbrev shifted : ℕ
  shifted = get_or raw (bitlen / 8) 0 * 2 ^ (8 - bitlen % 8) % 2 ^ 8

  has_last : bitlen % 8 ≢ 0 → bitlen / 8 < length raw
  has_last part = ground (arith, length-bytes_of size v)

  whole_byte :
      (q r : ℕ) → q < bitlen / 8 → r < 8 → digit r (get_or encoded q 0) ≡ digit (8 * q + r) v
  unfolding align_left
  whole_byte q r lt small =
      let plain = bytes_of-digit size v q r (omega arith) small in
      elim (Bool-cases (bitlen % 8 == 0)) [
        | inl t ↦ rw t plain
        | inr f ↦
            let other : (bitlen / 8 == q) ≡ false = ground arith in
            let kept = get_or-set raw (bitlen / 8) q shifted (has_last (ground arith)) in
            rw f (ap (digit r) (rw other at kept) ∙ plain)
      ]

  last_byte :
      (r : ℕ)
      → bitlen % 8 ≢ 0
      → r < bitlen % 8
      → digit (8 - bitlen % 8 + r) (get_or encoded (bitlen / 8) 0) ≡ digit (8 * (bitlen / 8) + r) v
  unfolding align_left
  last_byte r part small =
      let k = 8 - bitlen % 8 + r in
      let b = get_or raw (bitlen / 8) 0 in
      let test : (bitlen % 8 == 0) ≡ false = ==_ne (bitlen % 8) 0 part in
      let self : (bitlen / 8 == bitlen / 8) ≡ true = ==_self (bitlen / 8) in
      let stored = get_or-set raw (bitlen / 8) (bitlen / 8) shifted (has_last part) in
      rw test (
        ap (digit k) (rw self at stored)
        ∙ digit-mod 8 k (b * 2 ^ (8 - bitlen % 8)) (omega arith)
        ∙ digit-mul (8 - bitlen % 8) r b
        ∙ bytes_of-digit size v (bitlen / 8) r
            (omega (arith, has_last part, length-bytes_of size v)) (omega arith))

  module _ (received : List ℕ) (bytes : IsBytes received) (long : length received ≡ size)
      (bits : (j : ℕ) → bit_at received j ≡ (if ltb j bitlen then bit_at encoded j else 0)) where
    received-digit :
        (q r : ℕ)
        → r < 8
        → digit r (get_or received q 0)
          ≡ (if ltb (8 * q + (7 - r)) bitlen then digit r (get_or encoded q 0) else 0)
    received-digit q r small =
        let j = 8 * q + (7 - r) in
        let same_bit : 7 - j % 8 ≡ r = omega arith in
        let same_byte : j / 8 ≡ q = omega arith in
        let at : bit_at received j ≡ digit r (get_or received q 0) =
          ap₂ (λ m n. digit m (get_or received n 0)) same_bit same_byte in
        let from : bit_at encoded j ≡ digit r (get_or encoded q 0) =
          ap₂ (λ m n. digit m (get_or encoded n 0)) same_bit same_byte in
        sym at ∙ bits j ∙ ap (λ t. if ltb j bitlen then t else 0) from

    -- A byte that is not cut.
    other_byte :
        (q r : ℕ)
        → r < 8
        → (q ≡ bitlen / 8 → bitlen % 8 ≡ 0)
        → digit r (get_or received q 0) ≡ digit (8 * q + r) v
    other_byte q r small uncut = elim (Bool-cases (ltb q (bitlen / 8))) [
      | inl low ↦
          let inside : ltb (8 * q + (7 - r)) bitlen ≡ true = ground arith in
          (rw inside at (received-digit q r small)) ∙ whole_byte q r (ground arith) small
      | inr high ↦
          let outside : ltb (8 * q + (7 - r)) bitlen ≡ false = ground (arith, uncut) in
          let above : bitlen ≤ 8 * q + r = ground (arith, uncut) in
          (rw outside at (received-digit q r small))
          ∙ sym (digit_above bitlen (8 * q + r) v word above)
    ]

    cut_byte :
        (r : ℕ)
        → r < 8
        → bitlen % 8 ≢ 0
        → digit r (get_or received (bitlen / 8) 0 / 2 ^ (8 - bitlen % 8) % 2 ^ 8)
          ≡ digit (8 * (bitlen / 8) + r) v
    cut_byte r small part =
        let q = bitlen / 8 in
        let x = get_or received q 0 in
        let k = 8 - bitlen % 8 + r in
        digit-mod 8 r (x / 2 ^ (8 - bitlen % 8)) small
        ∙ digit-div (8 - bitlen % 8) r x
        ∙ elim (Bool-cases (ltb r (bitlen % 8))) [
          | inl used ↦
              let inside : ltb (8 * q + (7 - k)) bitlen ≡ true = ground arith in
              (rw inside at (received-digit q k (ground arith))) ∙ last_byte r part (ground arith)
          | inr unused ↦
              digit_above 8 k x (get_or-IsBytes received q bytes) (ground arith)
              ∙ sym (digit_above bitlen (8 * q + r) v word (ground arith))
        ]

    decoded-digit :
        (q r : ℕ) → r < 8 → digit r (get_or (align_right received bitlen) q 0) ≡ digit (8 * q + r) v
    unfolding align_right
    decoded-digit q r small =
        let cut = get_or received (bitlen / 8) 0 / 2 ^ (8 - bitlen % 8) % 2 ^ 8 in
        elim (Bool-cases (bitlen % 8 == 0)) [
          | inl t ↦ rw t (other_byte q r small (λ e. ground arith))
          | inr f ↦
              let part : bitlen % 8 ≢ 0 = λ e. ground arith in
              let last : bitlen / 8 < length received =
                omega (arith, has_last part, length-bytes_of size v) in
              let there = get_or-set received (bitlen / 8) q cut last in
              rw f (
                ap (digit r) there ∙ elim (Bool-cases (bitlen / 8 == q)) [
                  | inl same ↦
                      let e : bitlen / 8 ≡ q = ground arith in
                      rw same (cut_byte r small part ∙ ap (λ n. digit (8 * n + r) v) e)
                  | inr apart ↦ rw apart (other_byte q r small (λ e. absurd (ground arith)))
                ])
        ]

    align_right-IsBytes : IsBytes (align_right received bitlen)
    unfolding align_right
    align_right-IsBytes = elim (Bool-cases (bitlen % 8 == 0)) [
      | inl t ↦ rw t bytes
      | inr f ↦ rw f (set-IsBytes received (bitlen / 8) _ bytes (omega arith))
    ]

    decoded : value_of (align_right received bitlen) ≡ v
    decoded = same_digits _ _ λ k.
        let index : k ≡ 8 * (k / 8) + k % 8 = omega arith in
        ap (λ n. digit n (value_of (align_right received bitlen))) index
        ∙ value_of-digit (align_right received bitlen) (k / 8) (k % 8) align_right-IsBytes
            (omega arith)
        ∙ decoded-digit (k / 8) (k % 8) (omega arith)
        ∙ ap (λ n. digit n v) (sym index)

decode-read :
    {B : Type 0} (b : TransferBuffer B) (t : ScalarType) (bitlen old : ℕ) (s : BitStream B)
    → let r = BitStream.read b s (replicate t.size 0) bitlen in
      r.0 ≡ result_ok
      → decode b t bitlen s old
        ≡ (result_ok, fix_twos_complement t bitlen (value_of (align_right r.1 bitlen)), r.2)
unfolding decode decode_bytes
decode-read b t bitlen old s ok = ground arith

-- A scalar in the range of its field, encoded with success into a stream whose cache is the last byte
-- cut at the offset, as in a new stream and behind a successful write, and decoded from where the
-- write began: the decoding succeeds, gives the value, and ends where the write did; the stream has
-- its cache as before.
pub decode-encode :
    {B : Type 0} (b : TransferBuffer B) (law : IsBuffer b) (t : ScalarType) (bitlen value old : ℕ)
    (s : BitStream B)
    → 1 ≤ bitlen
    → bitlen ≤ 8 * t.size
    → value < 2 ^ (8 * t.size)
    → InRange t bitlen value
    → IsCached b law s
    → (encode b t bitlen s value).0 ≡ result_ok
    → let s' = (encode b t bitlen s value).1 in
      let r = decode b t bitlen (record s' { bit_offset = s.bit_offset }) old in
      (r.0 ≡ result_ok) × (r.1 ≡ value) × (r.2.bit_offset ≡ s'.bit_offset) × IsCached b law s'
unfolding encode encode_bytes
decode-encode b law t bitlen value old s some_bits fits word range cached ok =
    let kept = clear_extra_bits t bitlen value in
    let kept-lt = clear_extra_bits-lt t bitlen value word in
    let sent = align_left (bytes_of t.size kept) bitlen in
    let zeros = replicate t.size 0 in
    let (read_ok, end, long, bits, before, cached') =
      read-write_bits b law s sent zeros bitlen some_bits cached ok in
    let reader = record (BitStream.write b s sent bitlen).1 { bit_offset = s.bit_offset } in
    let got = (BitStream.read b reader zeros bitlen).1 in
    let size : length got ≡ t.size = omega (arith, long, length-replicate {A = ℕ} t.size 0) in
    let field : (j : ℕ) → bit_at got j ≡ (if ltb j bitlen then bit_at sent j else 0) =
      λ j. ground (arith, bits j, unset_bit t.size j) in
    let back =
      decoded t.size bitlen kept fits kept-lt got
        (read-IsBytes b reader zeros bitlen (replicate-IsBytes t.size)) size field in
    let step = decode-read b t bitlen old reader read_ok in
    rw step (
      refl,
      ap (fix_twos_complement t bitlen) back ∙ fix-clear t bitlen value some_bits fits range,
      end,
      cached',
    )
