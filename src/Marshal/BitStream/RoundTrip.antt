-- ===== src/Marshal/BitStream/RoundTrip.antt =====
-- uc_bit_stream.cpp: a read of the bits that a write appended gives them back.
use uavcan.Base.{
  ℕ, zero, suc, ◌+◌, ◌-◌, ◌*◌, ◌/◌, ◌%◌, ◌≤◌, ◌<◌, ◌≡◌, refl, sym, ap, ap₂, ◌∙◌, inl, inr, max,
  true, false, List, [], ◌∷◌, ◌++◌, length, drop, get_or, replicate, length-replicate,
  length-append, length-drop, drop_nil, ltb, if◌then◌else◌, Bool-cases, digit, digit_zero, arith,
}
use uavcan.Marshal.BitArray.{bitarray_copy, bit_at}
use uavcan.Marshal.BitArray.Copied.{in_window, bitarray_copy-bits}
use uavcan.Marshal.BitStream.{TransferBuffer, BitStream, result_ok, bitlen_to_bytelen, write, read}
use uavcan.Marshal.BitStream.Written.{IsBuffer, stream_bit, IsCached, IsWritten, length-copy_loop}
use uavcan.Marshal.BitStream.Appended.{write-IsWritten}

module _ {B : Type 0} (b : TransferBuffer B) (law : IsBuffer b) where
  get_or-zeros :
      (n i : ℕ) (xs : List ℕ)
      → get_or (replicate n 0 ++ drop n xs) i 0 ≡ (if ltb i n then 0 else get_or xs i 0)
  get_or-zeros zero i xs = ground arith
  get_or-zeros (suc n) zero xs = ground arith
  get_or-zeros (suc n) (suc i) [] = ground (arith, get_or-zeros n i [], drop_nil n)
  get_or-zeros (suc n) (suc i) (x ∷ xs) = ground (arith, get_or-zeros n i xs)

  module _ (s : BitStream B) (bytes : List ℕ) (bitlen : ℕ)
      (available : bitlen_to_bytelen (s.bit_offset + bitlen) ≤ law.limit s.buf) where
    abbrev bytelen : ℕ
    bytelen = bitlen_to_bytelen (bitlen + s.bit_offset % 8)

    abbrev fetched : List ℕ
    fetched = (b.read s.buf (s.bit_offset / 8) bytelen).1

    abbrev prepared : List ℕ
    prepared = replicate (bitlen_to_bytelen bitlen) 0 ++ drop (bitlen_to_bytelen bitlen) bytes

    -- What a read leaves in the caller's array.
    abbrev pub received : List ℕ
    received = bitarray_copy fetched (s.bit_offset % 8) bitlen prepared 0

    read-steps :
        read b s bytes bitlen
        ≡ (result_ok, received, record s { bit_offset = s.bit_offset + bitlen })
    unfolding read
    read-steps =
        let count = (law.readable s.buf (s.bit_offset / 8) bytelen (omega arith)).0 in ground arith

    fetched_bit :
        (j : ℕ)
        → j < bitlen
        → bit_at fetched (s.bit_offset % 8 + j) ≡ stream_bit b law s (s.bit_offset + j)
    fetched_bit j lt =
        let k = s.bit_offset % 8 + j in
        let there =
          (law.readable s.buf (s.bit_offset / 8) bytelen (omega arith)).1 (k / 8) (omega arith) in
        let same_bit : k % 8 ≡ (s.bit_offset + j) % 8 = omega arith in
        let same_byte : s.bit_offset / 8 + k / 8 ≡ (s.bit_offset + j) / 8 = omega arith in
        ap (digit (7 - k % 8)) there
        ∙ ap₂ (λ m n. digit (7 - m) (law.view s.buf n)) same_bit same_byte

    received-length : length received ≡ max (bitlen_to_bytelen bitlen) (length bytes)
    unfolding bitarray_copy
    received-length = omega (
      arith,
      length-copy_loop bitlen fetched (s.bit_offset % 8) bitlen prepared 0,
      length-append (replicate (bitlen_to_bytelen bitlen) 0)
          (drop (bitlen_to_bytelen bitlen) bytes),
      length-replicate {A = ℕ} (bitlen_to_bytelen bitlen) 0,
      length-drop (bitlen_to_bytelen bitlen) bytes,
    )

    received_bits :
        (j : ℕ)
        → bit_at received j ≡ (
            if ltb j bitlen
            then stream_bit b law s (s.bit_offset + j)
            else if ltb j (8 * bitlen_to_bytelen bitlen)
            then 0
            else bit_at bytes j)
    received_bits j =
        let room : 0 + bitlen ≤ 8 * length prepared = omega (
          arith,
          length-append (replicate (bitlen_to_bytelen bitlen) 0)
              (drop (bitlen_to_bytelen bitlen) bytes),
          length-replicate {A = ℕ} (bitlen_to_bytelen bitlen) 0,
        ) in
        let count = bitlen_to_bytelen bitlen in
        let unset : bit_at prepared j ≡ (if ltb j (8 * count) then 0 else bit_at bytes j) =
          ap (digit (7 - j % 8)) (get_or-zeros count (j / 8) bytes)
          ∙ elim (Bool-cases (ltb j (8 * count))) [
            | inl low ↦
                let low_byte : ltb (j / 8) count ≡ true = ground arith in
                rw (low, low_byte) (digit_zero (7 - j % 8))
            | inr high ↦
                let high_byte : ltb (j / 8) count ≡ false = ground arith in
                rw (high, high_byte) refl
          ] in
        let copied = bitarray_copy-bits fetched (s.bit_offset % 8) bitlen prepared 0 room j in
        elim (Bool-cases (ltb j bitlen)) [
          | inl inside ↦
              let window : in_window 0 bitlen j ≡ true = ground arith in
              let index : j - 0 ≡ j = omega arith in
              rw inside (
                (rw window at copied)
                ∙ ap (λ k. bit_at fetched (s.bit_offset % 8 + k)) index
                ∙ fetched_bit j (ground arith))
          | inr outside ↦
              let window : in_window 0 bitlen j ≡ false = ground arith in
              rw outside ((rw window at copied) ∙ unset)
        ]

  read-written :
      (s s' : BitStream B) (bytes array : List ℕ) (bitlen : ℕ)
      → IsWritten b law s s' bytes bitlen
      → let r = read b (record s' { bit_offset = s.bit_offset }) array bitlen in
        (r.0 ≡ result_ok)
        × (r.2.bit_offset ≡ s'.bit_offset)
        × (length r.1 ≡ max (bitlen_to_bytelen bitlen) (length array))
        × ((j : ℕ)
            → bit_at r.1 j ≡ (
                if ltb j bitlen
                then bit_at bytes j
                else if ltb j (8 * bitlen_to_bytelen bitlen)
                then 0
                else bit_at array j))
        × ((i : ℕ) → i < s.bit_offset → stream_bit b law s' i ≡ stream_bit b law s i)
        × IsCached b law s'
  read-written s s' bytes array bitlen w =
      let reader : BitStream B = record s' { bit_offset = s.bit_offset } in
      let available : bitlen_to_bytelen (s.bit_offset + bitlen) ≤ law.limit s'.buf =
        omega (arith, w.offset, w.cached.available) in
      rw (read-steps reader array bitlen available) (
        refl,
        sym w.offset,
        received-length reader array bitlen available,
        λ j. elim (Bool-cases (ltb j bitlen)) [
          | inl inside ↦
              let bit = received_bits reader array bitlen available j in
              rw inside ((rw inside at bit) ∙ w.new j (ground arith))
          | inr outside ↦
              let bit = received_bits reader array bitlen available j in
              rw outside (rw outside at bit)
        ],
        w.before,
        w.cached,
      )

  -- On a stream whose cache is the last byte cut at the offset, as it is in a new stream and behind
  -- every successful write on such a stream: a write of some bits that succeeds, and a read from
  -- where it began into any array. The read succeeds and ends where the write did; the array has the
  -- bits that were written, 0 in the rest of their last byte, and behind that what it had; the bits
  -- before the write are as they were, and the cache is again the last byte cut at the offset.
  pub read-write_bits :
      (s : BitStream B) (bytes array : List ℕ) (bitlen : ℕ)
      → 1 ≤ bitlen
      → IsCached b law s
      → (write b s bytes bitlen).0 ≡ result_ok
      → let s' = (write b s bytes bitlen).1 in
        let r = read b (record s' { bit_offset = s.bit_offset }) array bitlen in
        (r.0 ≡ result_ok)
        × (r.2.bit_offset ≡ s'.bit_offset)
        × (length r.1 ≡ max (bitlen_to_bytelen bitlen) (length array))
        × ((j : ℕ)
            → bit_at r.1 j ≡ (
                if ltb j bitlen
                then bit_at bytes j
                else if ltb j (8 * bitlen_to_bytelen bitlen)
                then 0
                else bit_at array j))
        × ((i : ℕ) → i < s.bit_offset → stream_bit b law s' i ≡ stream_bit b law s i)
        × IsCached b law s'
  read-write_bits s bytes array bitlen some_bits cached ok =
      read-written s (write b s bytes bitlen).1 bytes array bitlen
        (write-IsWritten b law s bytes bitlen some_bits cached ok)
