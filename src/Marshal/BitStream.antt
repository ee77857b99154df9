-- ===== src/Marshal/BitStream.antt =====
-- BitStream of libuavcan/include/uavcan/marshal/bit_stream.hpp and
-- libuavcan/src/marshal/uc_bit_stream.cpp, over a transfer buffer as an interface. Bit offsets stay
-- below 2^32, so that they do not wrap. A result is 0, 1, or the error of the buffer.
pub mod Written
pub mod Appended
pub mod Refused
pub mod RoundTrip
pub mod Array
use uavcan.Base.{
  ℕ, zero, ◌+◌, ◌-◌, ◌/◌, ◌%◌, bit_or, List, ◌++◌, length, drop, get_or, set, replicate, ltb, ◌==◌,
  if◌then◌else◌,
}
use uavcan.Can.IoManager.{IoResult, done, failed}
use uavcan.Marshal.BitArray.{bitarray_copy}

-- ITransferBuffer: what `read` puts into the caller's array, and the buffer that `write` leaves.
pub record TransferBuffer (B : Type 0) : Type 0 where
  pub read : B → (offset len : ℕ) → IoResult × List ℕ
  pub write : B → (offset : ℕ) → List ℕ → IoResult × B

pub record BitStream (B : Type 0) : Type 0 where
  pub buf : B
  pub bit_offset : ℕ
  pub byte_cache : ℕ

abbrev pub result_out_of_buffer : IoResult
result_out_of_buffer = done 0

abbrev pub result_ok : IoResult
result_ok = done 1

-- The constructor.
abbrev pub make_stream : {B : Type 0} → B → BitStream B
make_stream buf = record { buf = buf; bit_offset = 0; byte_cache = 0 }

abbrev pub bitlen_to_bytelen : ℕ → ℕ
bitlen_to_bytelen bits = (bits + 7) / 8

-- The bytes that `write` dumps: the bits behind those of the cache.
unfoldable pub merged_bytes : (bytes : List ℕ) → (bitlen bit_offset cache : ℕ) → List ℕ
merged_bytes bytes bitlen bit_offset cache =
    let bytelen = bitlen_to_bytelen (bitlen + bit_offset % 8) in
    let tmp = bitarray_copy bytes 0 bitlen (replicate bytelen 0) (bit_offset % 8) in
    set tmp 0 (bit_or (get_or tmp 0 0) cache)

unfoldable pub next_cache : List ℕ → (new_bit_offset : ℕ) → ℕ
next_cache tmp new_bit_offset = if new_bit_offset % 8 == 0 then 0 else get_or tmp (length tmp - 1) 0

module _ {B : Type 0} (b : TransferBuffer B) where
  unfoldable pub write : BitStream B → List ℕ → ℕ → IoResult × BitStream B
  write s bytes bitlen =
      let tmp = merged_bytes bytes bitlen s.bit_offset s.byte_cache in
      let new_bit_offset = s.bit_offset + bitlen in
      let (write_res, buf) = b.write s.buf (s.bit_offset / 8) tmp in
      let s' : BitStream B = record s { buf = buf; byte_cache = next_cache tmp new_bit_offset } in
      elim write_res [
        | failed e ↦ (failed e, s')
        | done n ↦
            if ltb n (length tmp)
            then (result_out_of_buffer, s')
            else (result_ok, record s' { bit_offset = new_bit_offset })
      ]

  -- What stands in the caller's array goes along, since only the bytes of `bitlen` are written.
  unfoldable pub read : BitStream B → List ℕ → ℕ → IoResult × List ℕ × BitStream B
  read s bytes bitlen =
      let bytelen = bitlen_to_bytelen (bitlen + s.bit_offset % 8) in
      let (read_res, tmp) = b.read s.buf (s.bit_offset / 8) bytelen in
      let count = bitlen_to_bytelen bitlen in
      elim read_res [
        | failed e ↦ (failed e, bytes, s)
        | done n ↦ if ltb n bytelen then (result_out_of_buffer, bytes, s) else (
          result_ok,
          bitarray_copy tmp (s.bit_offset % 8) bitlen (replicate count 0 ++ drop count bytes) 0,
          record s { bit_offset = s.bit_offset + bitlen },
        )
      ]
