-- ===== src/Marshal/BitStream/Appended.antt =====
-- uc_bit_stream.cpp: a write appends bits.
use uavcan.Base.{
  ℕ, ◌+◌, ◌-◌, ◌*◌, ◌/◌, ◌%◌, ◌≤◌, ◌<◌, ◌≡◌, ◌≢◌, refl, sym, ap, ap₂, subst, ◌∙◌, inl, inr, true,
  false, List, length, get_or, ltb, ◌==◌, if◌then◌else◌, Bool-cases, ==_ne, digit, digit_zero,
  arith,
}
use uavcan.Can.IoManager.{done, IoResult, IoResult-cases}
use uavcan.Marshal.BitArray.{bit_at}
use uavcan.Marshal.BitArray.Copied.{in_window}
use uavcan.Marshal.BitStream.{
  TransferBuffer, BitStream, result_ok, bitlen_to_bytelen, merged_bytes, next_cache, write,
}
use uavcan.Marshal.BitStream.Written.{
  IsBuffer, IsCut, length-merged_bytes, merged_bytes-bits, stream_bit, IsCached, IsWritten,
}

module _ {B : Type 0} (b : TransferBuffer B) (law : IsBuffer b) where
  module _ (s : BitStream B) (bytes : List ℕ) (bitlen : ℕ) (some_bits : 1 ≤ bitlen) where
    abbrev pub dumped : List ℕ
    dumped = merged_bytes bytes bitlen s.bit_offset s.byte_cache

    abbrev at_byte : ℕ
    at_byte = s.bit_offset / 8

    abbrev outcome : IoResult × B
    outcome = b.write s.buf at_byte dumped

    abbrev pub after : BitStream B
    after = record {
      buf = outcome.1;
      bit_offset = s.bit_offset + bitlen;
      byte_cache = next_cache dumped (s.bit_offset + bitlen);
    }

    pub write-steps :
        (write b s bytes bitlen).0 ≡ result_ok
        → (outcome.0 ≡ done (length dumped)) × ((write b s bytes bitlen).1 ≡ after)
    unfolding write
    write-steps h = elim (IoResult-cases outcome.0) [
      | inr (e, failure) ↦ absurd (ground arith)
      | inl (n, success) ↦ elim (Bool-cases (ltb n (length dumped))) [
        | inl short ↦ absurd (ground arith)
        | inr all ↦
            let most = law.at_most s.buf at_byte dumped n success in
            let count : n ≡ length dumped = ground arith in (success ∙ ap done count, ground arith)
      ]
    ]

    pub dumped-length : length dumped ≡ bitlen_to_bytelen (bitlen + s.bit_offset % 8)
    dumped-length = length-merged_bytes bytes bitlen s.bit_offset s.byte_cache some_bits

    module _ (stored : outcome.0 ≡ done (length dumped)) where
      some_bytes : 0 < length dumped
      some_bytes = omega (arith, dumped-length)

      view_inside :
          (q : ℕ) → q < length dumped → law.view outcome.1 (at_byte + q) ≡ get_or dumped q 0
      view_inside q lt =
          let index : at_byte + q - at_byte ≡ q = omega arith in
          let inside : in_window at_byte (length dumped) (at_byte + q) ≡ true = ground arith in
          let there = (law.written s.buf at_byte dumped some_bytes stored).0 (at_byte + q) in
          (rw inside at there) ∙ ap (λ n. get_or dumped n 0) index

      -- A bit of the dumped bytes, where the buffer has it.
      pub dumped_bit :
          (i : ℕ)
          → i < 8 * length dumped
          → stream_bit b law after (8 * at_byte + i) ≡ bit_at dumped i
      dumped_bit i lt =
          let quotient : (8 * at_byte + i) / 8 ≡ at_byte + i / 8 = omega arith in
          let rest : (8 * at_byte + i) % 8 ≡ i % 8 = omega arith in
          ap₂ (λ k n. digit (7 - k) (law.view outcome.1 n)) rest quotient
          ∙ ap (digit (7 - i % 8)) (view_inside (i / 8) (omega arith))

      before_bit : (i : ℕ) → i < 8 * at_byte → stream_bit b law after i ≡ stream_bit b law s i
      before_bit i lt =
          let outside : in_window at_byte (length dumped) (i / 8) ≡ false = ground arith in
          let there = (law.written s.buf at_byte dumped some_bytes stored).0 (i / 8) in
          ap (digit (7 - i % 8)) (rw outside at there)

    module _ (cached : IsCached b law s) where
      pub dumped-bits :
          (i : ℕ)
          → bit_at dumped i ≡ (
              if ltb i (s.bit_offset % 8)
              then digit (7 - i) s.byte_cache
              else if ltb i (s.bit_offset % 8 + bitlen)
              then bit_at bytes (i - s.bit_offset % 8)
              else 0)
      dumped-bits = merged_bytes-bits bytes bitlen s.bit_offset s.byte_cache some_bits cached.cut

      module _ (stored : outcome.0 ≡ done (length dumped)) where
        before_offset : (i : ℕ) → i < s.bit_offset → stream_bit b law after i ≡ stream_bit b law s i
        before_offset i lt = elim (Bool-cases (ltb i (8 * at_byte))) [
          | inl whole ↦ before_bit stored i (ground arith)
          | inr last ↦
              let k = i - 8 * at_byte in
              let index : i ≡ 8 * at_byte + k = ground arith in
              let in_cache : ltb k (s.bit_offset % 8) ≡ true = ground arith in
              let used : s.bit_offset % 8 ≢ 0 = λ e. absurd (ground arith) in
              let bit : bit_at dumped k ≡ digit (7 - k) s.byte_cache =
                ground (arith, dumped-bits k) in
              let same_bit : k ≡ i % 8 = ground arith in
              let same_byte : at_byte ≡ i / 8 = ground arith in
              ap (stream_bit b law after) index
              ∙ dumped_bit stored k (ground (arith, dumped-length))
              ∙ bit
              ∙ ap (digit (7 - k)) (sym (cached.stored used))
              ∙ ap₂ (λ m n. digit (7 - m) (law.view s.buf n)) same_bit same_byte
        ]

        new_bits : (j : ℕ) → j < bitlen → stream_bit b law after (s.bit_offset + j) ≡ bit_at bytes j
        new_bits j lt =
            let k = s.bit_offset % 8 + j in
            let index : s.bit_offset + j ≡ 8 * at_byte + k = omega arith in
            let behind : ltb k (s.bit_offset % 8) ≡ false = ground arith in
            let inside : ltb k (s.bit_offset % 8 + bitlen) ≡ true = ground arith in
            let source : k - s.bit_offset % 8 ≡ j = omega arith in
            let bit = dumped-bits k in
            ap (stream_bit b law after) index
            ∙ dumped_bit stored k (omega (arith, dumped-length))
            ∙ (rw (behind, inside) at bit)
            ∙ ap (bit_at bytes) source

        last_byte :
            (s.bit_offset + bitlen) % 8 ≢ 0 → after.byte_cache ≡ get_or dumped (length dumped - 1) 0
        unfolding next_cache
        last_byte used =
            let test : ((s.bit_offset + bitlen) % 8 == 0) ≡ false = ==_ne _ 0 used in rw test refl

        after-IsCut : IsCut after.byte_cache (after.bit_offset % 8)
        unfolding next_cache
        after-IsCut j le lt = elim (Bool-cases ((s.bit_offset + bitlen) % 8 == 0)) [
          | inl aligned ↦ rw aligned (digit_zero (7 - j))
          | inr used ↦
              let k = 8 * (length dumped - 1) + j in
              let size = dumped-length in
              let behind : ltb k (s.bit_offset % 8) ≡ false = ground arith in
              let outside : ltb k (s.bit_offset % 8 + bitlen) ≡ false = ground arith in
              let bit = dumped-bits k in
              let same_bit : j ≡ k % 8 = omega arith in
              let same_byte : length dumped - 1 ≡ k / 8 = omega arith in
              rw used (
                ap₂ (λ m n. digit (7 - m) (get_or dumped n 0)) same_bit same_byte
                ∙ (rw (behind, outside) at bit))
        ]

        after-IsWritten : IsWritten b law s after bytes bitlen
        after-IsWritten = record {
          offset = refl;
          cached = record {
            stored = λ used.
                let last : after.bit_offset / 8 ≡ at_byte + (length dumped - 1) =
                  omega (arith, dumped-length) in
                ap (law.view outcome.1) last
                ∙ view_inside stored (length dumped - 1) (omega (arith, dumped-length))
                ∙ sym (last_byte used);
            cut = after-IsCut;
            available = omega (
              arith,
              (law.written s.buf at_byte dumped (some_bytes stored) stored).1,
              dumped-length,
            );
          };
          before = before_offset;
          new = new_bits;
        }

  -- A write of some bits that succeeds puts them behind those that are there.
  pub write-IsWritten :
      (s : BitStream B) (bytes : List ℕ) (bitlen : ℕ)
      → 1 ≤ bitlen
      → IsCached b law s
      → (write b s bytes bitlen).0 ≡ result_ok
      → IsWritten b law s (write b s bytes bitlen).1 bytes bitlen
  write-IsWritten s bytes bitlen some_bits cached ok =
      let (stored, now) = write-steps s bytes bitlen some_bits ok in
      subst (λ t. IsWritten b law s t bytes bitlen) (sym now)
        (after-IsWritten s bytes bitlen some_bits cached stored)
