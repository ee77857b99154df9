-- ===== src/Marshal/ScalarCodec/Received.antt =====
-- scalar_codec.hpp and uc_scalar_codec.cpp: the array that a read leaves has bytes.
use uavcan.Base.{
  ℕ, zero, suc, ◌+◌, ◌-◌, ◌/◌, ◌%◌, ◌^◌, ◌<◌, ◌≡◌, sym, ap, subst, ◌∙◌, ◌⊎◌, inl, inr, List, [],
  ◌∷◌, ◌++◌, get_or, set, replicate, drop, IsBytes, IsBytes-append, drop-IsBytes, ltb, ◌==◌,
  Bool-cases, digit, digit_zero, arith,
}
use uavcan.Can.IoManager.{IoResult-cases}
use uavcan.Marshal.BitArray.{
  bit_at, copy_loop, bitarray_copy, merge_byte, copied_bits, write_mask, src_data,
}
use uavcan.Marshal.BitStream
use uavcan.Marshal.BitStream.{TransferBuffer, BitStream, result_ok, bitlen_to_bytelen}
use uavcan.Marshal.BitStream.Written.{get_or-replicate}

pub set-IsBytes : (xs : List ℕ) (i v : ℕ) → IsBytes xs → v < 2 ^ 8 → IsBytes (set xs i v)
set-IsBytes [] i v h lt = h
set-IsBytes (x ∷ xs) zero v h lt = (lt, h.1)
set-IsBytes (x ∷ xs) (suc i) v h lt = (h.0, set-IsBytes xs i v h.1 lt)

pub unset_bit : (n j : ℕ) → bit_at (replicate n 0) j ≡ 0
unset_bit n j = ap (digit (7 - j % 8)) (get_or-replicate n (j / 8)) ∙ digit_zero (7 - j % 8)

pub replicate-IsBytes : (n : ℕ) → IsBytes (replicate n 0)
replicate-IsBytes zero = tt
replicate-IsBytes (suc n) = (omega arith, replicate-IsBytes n)

pub get_or-IsBytes : (xs : List ℕ) (i : ℕ) → IsBytes xs → get_or xs i 0 < 2 ^ 8
get_or-IsBytes [] i h = omega arith
get_or-IsBytes (x ∷ xs) zero h = h.0
get_or-IsBytes (x ∷ xs) (suc i) h = get_or-IsBytes xs i h.1

merge_byte-lt : (old new mask : ℕ) → merge_byte old new mask < 2 ^ 8
unfolding merge_byte
merge_byte-lt old new mask = omega arith

copy_loop-IsBytes :
    (fuel : ℕ) (src : List ℕ) (s rest : ℕ) (dst : List ℕ) (d : ℕ)
    → IsBytes dst
    → IsBytes (copy_loop fuel src s rest dst d)
unfolding copy_loop
copy_loop-IsBytes zero src s rest dst d h = h
copy_loop-IsBytes (suc fuel) src s rest dst d h =
    let count = copied_bits rest (s % 8) (d % 8) in
    let new = src_data (get_or src (s / 8) 0) (s % 8) (d % 8) in
    let old = get_or dst (d / 8) 0 in
    let mask = write_mask count (d % 8) in
    let byte = merge_byte old new mask in
    elim (Bool-cases (rest == 0)) [
      | inl t ↦ rw t h
      | inr f ↦ rw f (
          copy_loop-IsBytes fuel src (s + count) (rest - count) (set dst (d / 8) byte) (d + count)
            (set-IsBytes dst (d / 8) byte h (merge_byte-lt old new mask)))
    ]

abbrev prepared : List ℕ → ℕ → List ℕ
prepared bytes bitlen =
    replicate (bitlen_to_bytelen bitlen) 0 ++ drop (bitlen_to_bytelen bitlen) bytes

-- A read leaves the caller's array alone, or copies into it.
read-array :
    {B : Type 0} (b : TransferBuffer B) (s : BitStream B) (bytes : List ℕ) (bitlen : ℕ)
    → let tmp =
        (b.read s.buf (s.bit_offset / 8) (bitlen_to_bytelen (bitlen + s.bit_offset % 8))).1 in
      let r = BitStream.read b s bytes bitlen in
      (r.1 ≡ bytes) ⊎ (r.1 ≡ bitarray_copy tmp (s.bit_offset % 8) bitlen (prepared bytes bitlen) 0)
unfolding BitStream.read
read-array b s bytes bitlen =
    let bytelen = bitlen_to_bytelen (bitlen + s.bit_offset % 8) in
    elim (IoResult-cases (b.read s.buf (s.bit_offset / 8) bytelen).0) [
      | inr (e, failure) ↦ inl (ground arith)
      | inl (n, success) ↦ elim (Bool-cases (ltb n bytelen)) [
        | inl short ↦ inl (ground arith)
        | inr all ↦ inr (ground arith)
      ]
    ]

pub read-IsBytes :
    {B : Type 0} (b : TransferBuffer B) (s : BitStream B) (bytes : List ℕ) (bitlen : ℕ)
    → IsBytes bytes
    → IsBytes (BitStream.read b s bytes bitlen).1
unfolding bitarray_copy
read-IsBytes b s bytes bitlen h =
    let count = bitlen_to_bytelen bitlen in
    let tmp = (b.read s.buf (s.bit_offset / 8) (bitlen_to_bytelen (bitlen + s.bit_offset % 8))).1 in
    let clean : IsBytes (prepared bytes bitlen) =
      IsBytes-append (replicate count 0) (drop count bytes) (replicate-IsBytes count)
        (drop-IsBytes count bytes h) in
    let copied =
      copy_loop-IsBytes bitlen tmp (s.bit_offset % 8) bitlen (prepared bytes bitlen) 0 clean in
    elim (read-array b s bytes bitlen) [
      | inl same ↦ subst IsBytes (sym same) h
      | inr new ↦ subst IsBytes (sym new) copied
    ]
