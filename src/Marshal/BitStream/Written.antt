-- ===== src/Marshal/BitStream/Written.antt =====
-- uc_bit_stream.cpp: what a write leaves in the buffer, bit by bit.
use uavcan.Base.{
  ℕ, zero, suc, ◌+◌, ◌-◌, ◌*◌, ◌/◌, ◌%◌, ◌≤◌, ◌<◌, ◌≡◌, ◌≢◌, refl, sym, ap, ap₂, ◌∙◌, inl, inr,
  bit_or, max, List, length, get_or, set, replicate, length-set, length-replicate, ltb, ◌==◌,
  if◌then◌else◌, Bool-cases, digit, digit_zero, digit-bit_or, arith,
}
use uavcan.Can.IoManager.{done}
use uavcan.Marshal.BitArray.{
  bitarray_copy, bit_at, copy_loop, copied_bits, write_mask, src_data, merge_byte,
}
use uavcan.Marshal.BitArray.Copied.{in_window, bitarray_copy-bits, get_or-set}
use uavcan.Marshal.BitStream.{
  TransferBuffer, BitStream, bitlen_to_bytelen, merged_bytes, make_stream,
}

-- A buffer of bytes: those below `limit` can be read; a write that reports all its bytes has put
-- them in place and left the others.
pub record IsBuffer {B : Type 0} (b : TransferBuffer B) : Type 0 where
  pub view : B → ℕ → ℕ
  pub limit : B → ℕ
  pub written :
      (x : B) (offset : ℕ) (bytes : List ℕ)
      → 0 < length bytes
      → (b.write x offset bytes).0 ≡ done (length bytes)
      → let x' = (b.write x offset bytes).1 in
        ((i : ℕ)
          → view x' i
            ≡ (if in_window offset (length bytes) i then get_or bytes (i - offset) 0 else view x i))
        × (max (limit x) (offset + length bytes) ≤ limit x')
  pub at_most :
      (x : B) (offset : ℕ) (bytes : List ℕ) (n : ℕ)
      → (b.write x offset bytes).0 ≡ done n
      → n ≤ length bytes
  pub readable :
      (x : B) (offset len : ℕ)
      → offset + len ≤ limit x
      → ((b.read x offset len).0 ≡ done len)
        × ((i : ℕ) → i < len → get_or (b.read x offset len).1 i 0 ≡ view x (offset + i))

pub get_or-replicate : (n i : ℕ) → get_or {A = ℕ} (replicate n 0) i 0 ≡ 0
get_or-replicate zero i = refl
get_or-replicate (suc n) zero = refl
get_or-replicate (suc n) (suc i) = get_or-replicate n i

pub length-copy_loop :
    (fuel : ℕ) (src : List ℕ) (s rest : ℕ) (dst : List ℕ) (d : ℕ)
    → length (copy_loop fuel src s rest dst d) ≡ length dst
unfolding copy_loop
length-copy_loop zero src s rest dst d = refl
length-copy_loop (suc fuel) src s rest dst d =
    let count = copied_bits rest (s % 8) (d % 8) in
    let new = src_data (get_or src (s / 8) 0) (s % 8) (d % 8) in
    let byte = merge_byte (get_or dst (d / 8) 0) new (write_mask count (d % 8)) in
    elim (Bool-cases (rest == 0)) [
      | inl t ↦ rw t refl
      | inr f ↦ rw f (
          length-copy_loop fuel src (s + count) (rest - count) (set dst (d / 8) byte) (d + count)
          ∙ length-set dst (d / 8) byte)
    ]

-- The bits of a byte of the cache that are not used are 0.
abbrev pub IsCut : ℕ → ℕ → Type 0
IsCut cache used = (j : ℕ) → used ≤ j → j < 8 → digit (7 - j) cache ≡ 0

module _ (bytes : List ℕ) (bitlen offset cache : ℕ) (some_bits : 1 ≤ bitlen) where
  abbrev pub tmp : List ℕ
  tmp = merged_bytes bytes bitlen offset cache

  abbrev copied : List ℕ
  copied =
      bitarray_copy bytes 0 bitlen (replicate (bitlen_to_bytelen (bitlen + offset % 8)) 0)
        (offset % 8)

  pub length-merged_bytes : length tmp ≡ bitlen_to_bytelen (bitlen + offset % 8)
  unfolding merged_bytes bitarray_copy
  length-merged_bytes =
      length-set copied 0 (bit_or (get_or copied 0 0) cache)
      ∙ length-copy_loop bitlen bytes 0 bitlen
          (replicate (bitlen_to_bytelen (bitlen + offset % 8)) 0) (offset % 8)
      ∙ length-replicate (bitlen_to_bytelen (bitlen + offset % 8)) 0

  from_zero : (i : ℕ) → bit_at bytes (0 + (i - offset % 8)) ≡ bit_at bytes (i - offset % 8)
  from_zero i = let e : 0 + (i - offset % 8) ≡ i - offset % 8 = omega arith in ap (bit_at bytes) e

  copied-bits :
      (i : ℕ)
      → bit_at copied i
        ≡ (if in_window (offset % 8) bitlen i then bit_at bytes (i - offset % 8) else 0)
  copied-bits i =
      let zeros = replicate (bitlen_to_bytelen (bitlen + offset % 8)) 0 in
      let unset : bit_at zeros i ≡ 0 =
        ap (digit (7 - i % 8)) (get_or-replicate (bitlen_to_bytelen (bitlen + offset % 8)) (i / 8))
        ∙ digit_zero (7 - i % 8) in
      let room : offset % 8 + bitlen ≤ 8 * length zeros =
        omega (arith, length-replicate {A = ℕ} (bitlen_to_bytelen (bitlen + offset % 8)) 0) in
      ground
        (arith, bitarray_copy-bits bytes 0 bitlen zeros (offset % 8) room i, unset, from_zero i)

  -- The bits of the cache and the copied ones are put together in the first byte.
  pub merged_bytes-digits :
      (i : ℕ)
      → bit_at tmp i ≡ (
          let new = if in_window (offset % 8) bitlen i then bit_at bytes (i - offset % 8) else 0 in
          if ltb i 8 then max new (digit (7 - i) cache) else new)
  unfolding merged_bytes
  merged_bytes-digits i =
      let first = bit_or (get_or copied 0 0) cache in
      let long : 0 < length copied =
        omega (arith, length-merged_bytes, length-set copied 0 first) in
      let raw : bit_at tmp i
          ≡ digit (7 - i % 8) (if 0 == i / 8 then first else get_or copied (i / 8) 0) =
        ap (digit (7 - i % 8)) (get_or-set copied 0 (i / 8) first long) in
      elim (Bool-cases (0 == i / 8)) [
        | inr later ↦
            let here : bit_at tmp i ≡ bit_at copied i = rw later at raw in
            ground (arith, copied-bits i)
        | inl at_first ↦
            let low : i < 8 = ground arith in
            let here : bit_at tmp i ≡ digit (7 - i % 8) first = rw at_first at raw in
            let same : i % 8 ≡ i = omega arith in
            let quotient : i / 8 ≡ 0 = omega arith in
            let of_copied : digit (7 - i) (get_or copied 0 0) ≡ bit_at copied i =
              ap₂ (λ k n. digit (7 - k) (get_or copied n 0)) (sym same) (sym quotient) in
            let of_first : digit (7 - i % 8) first ≡ digit (7 - i) first =
              ap (λ k. digit (7 - k) first) same in
            ground (arith, copied-bits i, digit-bit_or (7 - i) (get_or copied 0 0) cache)
      ]

  pub merged_bytes-bits :
      IsCut cache (offset % 8)
      → (i : ℕ)
      → bit_at tmp i ≡ (
          if ltb i (offset % 8)
          then digit (7 - i) cache
          else if ltb i (offset % 8 + bitlen)
          then bit_at bytes (i - offset % 8)
          else 0)
  merged_bytes-bits cut i = ground (arith, merged_bytes-digits i, cut i)

module _ {B : Type 0} (b : TransferBuffer B) (law : IsBuffer b) where
  -- The bit of a stream at an index.
  abbrev pub stream_bit : BitStream B → ℕ → ℕ
  stream_bit s i = digit (7 - i % 8) (law.view s.buf (i / 8))

  -- The cache is the last byte in the buffer, cut at the offset; the bytes up to there are readable.
  pub record IsCached (s : BitStream B) : Type 0 where
    pub stored : s.bit_offset % 8 ≢ 0 → law.view s.buf (s.bit_offset / 8) ≡ s.byte_cache
    pub cut : IsCut s.byte_cache (s.bit_offset % 8)
    pub available : bitlen_to_bytelen s.bit_offset ≤ law.limit s.buf

  -- A new stream has an empty cache.
  pub make_stream-IsCached : (x : B) → IsCached (make_stream x)
  make_stream-IsCached x = record {
    stored = λ used. absurd (used (omega arith));
    cut = λ j le lt. digit_zero (7 - j);
    available = omega arith;
  }

  pub record IsWritten (s s' : BitStream B) (bytes : List ℕ) (bitlen : ℕ) : Type 0 where
    pub offset : s'.bit_offset ≡ s.bit_offset + bitlen
    pub cached : IsCached s'
    pub before : (i : ℕ) → i < s.bit_offset → stream_bit s' i ≡ stream_bit s i
    pub new : (j : ℕ) → j < bitlen → stream_bit s' (s.bit_offset + j) ≡ bit_at bytes j
