-- ===== src/Marshal/BitStream/Refused.antt =====
-- uc_bit_stream.cpp: a write that fails leaves its bits in the cache, where the next write finds them.
use uavcan.Base.{
  ℕ, ◌+◌, ◌-◌, ◌*◌, ◌/◌, ◌%◌, ◌≤◌, ◌<◌, ◌≡◌, ◌≢◌, refl, ap, ap₂, ◌∙◌, inl, inr, max, true, false,
  List, length, get_or, ltb, ◌==◌, if◌then◌else◌, Bool-cases, ==_ne, digit, arith,
}
use uavcan.Can.IoManager.{IoResult-cases}
use uavcan.Marshal.BitArray.{bit_at}
use uavcan.Marshal.BitArray.Copied.{in_window}
use uavcan.Marshal.BitStream.{
  TransferBuffer, BitStream, result_ok, bitlen_to_bytelen, next_cache, write,
}
use uavcan.Marshal.BitStream.Written.{IsBuffer, IsCached, stream_bit, merged_bytes-digits}
use uavcan.Marshal.BitStream.Appended.{
  dumped, after, write-steps, dumped-length, dumped_bit, dumped-bits,
}

module _ {B : Type 0} (b : TransferBuffer B) (law : IsBuffer b) where
  write-refused :
      (s : BitStream B) (bytes : List ℕ) (bitlen : ℕ) (some_bits : 1 ≤ bitlen)
      → (write b s bytes bitlen).0 ≢ result_ok
      → let s' = (write b s bytes bitlen).1 in
        (s'.bit_offset ≡ s.bit_offset)
        × (s'.byte_cache
            ≡ next_cache (dumped b law s bytes bitlen some_bits) (s.bit_offset + bitlen))
  unfolding write
  write-refused s bytes bitlen some_bits failure =
      let tmp = dumped b law s bytes bitlen some_bits in
      elim (IoResult-cases (b.write s.buf (s.bit_offset / 8) tmp).0) [
        | inr (e, refused) ↦ ground arith
        | inl (n, success) ↦ elim (Bool-cases (ltb n (length tmp))) [
          | inl short ↦ ground arith
          | inr all ↦ absurd (ground arith)
        ]
      ]

  module _ (s : BitStream B) (xs : List ℕ) (n : ℕ) (some_x : 1 ≤ n)
      (cached : IsCached b law s) where
    -- The bits of the last byte that the refused write wanted to dump.
    refused_bit :
        (i : ℕ)
        → s.bit_offset % 8 ≤ i
        → i < 8
        → let size = bitlen_to_bytelen (n + s.bit_offset % 8) in
          let k = 8 * (size - 1) + i - s.bit_offset % 8 in
          digit (7 - i) (get_or (dumped b law s xs n some_x) (size - 1) 0)
          ≡ (if ltb k n then bit_at xs k else 0)
    refused_bit i le lt =
        let size = bitlen_to_bytelen (n + s.bit_offset % 8) in
        let at_i = 8 * (size - 1) + i in
        let same_bit : i ≡ at_i % 8 = omega arith in
        let same_byte : size - 1 ≡ at_i / 8 = omega arith in
        ap₂ (λ m q. digit (7 - m) (get_or (dumped b law s xs n some_x) q 0)) same_bit same_byte
        ∙ ground (arith, dumped-bits b law s xs n some_x cached at_i)

    -- On a stream whose cache is the last byte cut at the offset: a write of n bits that fails and
    -- that would not end at a byte boundary, then a write of m bits that succeeds, in the place of the
    -- first: up to the end of the byte, the stream has the union of the new bits and of the bits that
    -- the failed write had for its last byte.
    pub write_failed-write :
        (ys : List ℕ) (m : ℕ)
        → 1 ≤ m
        → (write b s xs n).0 ≢ result_ok
        → (s.bit_offset + n) % 8 ≢ 0
        → let s' = (write b s xs n).1 in
          (write b s' ys m).0 ≡ result_ok
          → (j : ℕ) → j < m
          → s.bit_offset % 8 + j < 8
          → let k = 8 * (bitlen_to_bytelen (n + s.bit_offset % 8) - 1) + j in
            stream_bit b law (write b s' ys m).1 (s.bit_offset + j)
            ≡ (if ltb k n then max (bit_at ys j) (bit_at xs k) else bit_at ys j)
    unfolding next_cache
    write_failed-write ys m some_y failure ragged ok j j_lt in_byte =
        let s' = (write b s xs n).1 in
        let (stored, now) = write-steps b law s' ys m some_y ok in
        let (same, cache) = write-refused s xs n some_x failure in
        let tmp = dumped b law s xs n some_x in
        let size = bitlen_to_bytelen (n + s.bit_offset % 8) in
        let i = s.bit_offset % 8 + j in
        let k = 8 * (size - 1) + j in
        let index : s.bit_offset + j ≡ 8 * (s'.bit_offset / 8) + i = omega (arith, same) in
        let test : ((s.bit_offset + n) % 8 == 0) ≡ false = ==_ne _ 0 ragged in
        let kept : s'.byte_cache ≡ get_or tmp (size - 1) 0 =
          cache
          ∙ (rw test refl)
          ∙ ap (λ q. get_or tmp (q - 1) 0) (dumped-length b law s xs n some_x) in
        let source : 8 * (size - 1) + i - s.bit_offset % 8 ≡ k = omega arith in
        let old : digit (7 - i) s'.byte_cache ≡ (if ltb k n then bit_at xs k else 0) =
          ap (digit (7 - i)) kept
          ∙ refused_bit i (omega arith) in_byte
          ∙ ap (λ q. if ltb q n then bit_at xs q else 0) source in
        let target : i - s'.bit_offset % 8 ≡ j = omega (arith, same) in
        let there : in_window (s'.bit_offset % 8) m i ≡ true = ground (arith, same) in
        let low : ltb i 8 ≡ true = ground arith in
        let merged = merged_bytes-digits ys m s'.bit_offset s'.byte_cache some_y i in
        let both : bit_at (dumped b law s' ys m some_y) i
            ≡ max (bit_at ys j) (if ltb k n then bit_at xs k else 0) =
          (rw (there, low) at merged) ∙ ap₂ max (ap (bit_at ys) target) old in
        let long : i < 8 * length (dumped b law s' ys m some_y) =
          omega (arith, dumped-length b law s' ys m some_y) in
        ap (λ t. stream_bit b law t (s.bit_offset + j)) now
        ∙ ap (stream_bit b law (after b law s' ys m some_y)) index
        ∙ dumped_bit b law s' ys m some_y stored i long
        ∙ both
        ∙ ground arith
