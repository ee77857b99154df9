-- ===== src/Tests/Marshalling.antt =====
-- uc_bit_array_copy.cpp, uc_bit_stream.cpp and uc_scalar_codec.cpp on small inputs.
use uavcan.Base.{
  ℕ, ◌+◌, ◌-◌, ◌^◌, ◌<◌, ◌≡◌, refl, inr, true, ◌||◌, max, [], ◌∷◌, length, ltb, ◌==◌, if◌then◌else◌,
  every, every-at, digit, copy_at, arith,
}
use uavcan.Transport.TransferBuffer.{clip}
use uavcan.Transport.TransferBuffer.Static
use uavcan.Transport.TransferBuffer.Static.{StaticBuffer}
use uavcan.Marshal.BitArray.{
  bit_at, bitarray_copy, copy_loop, copied_bits, write_mask, src_data, merge_byte,
}
use uavcan.Marshal.BitArray.Copied.{in_window, bitarray_copy-bits}
use uavcan.Can.IoManager.{done}
use uavcan.Marshal.BitStream
use uavcan.Marshal.BitStream.{
  BitStream, make_stream, result_ok, bitlen_to_bytelen, merged_bytes, next_cache,
}
use uavcan.Marshal.BitStream.Array.{static_buffer, static_buffer-IsBuffer}
use uavcan.Marshal.BitStream.Written.{IsCached, IsCut, stream_bit, make_stream-IsCached}
use uavcan.Marshal.BitStream.Refused.{write_failed-write}
use uavcan.Marshal.BitStream.RoundTrip.{read-write_bits}
use uavcan.Marshal.ScalarCodec.{
  ScalarType, encode, encode_bytes, decode, bytes_of, clear_extra_bits, align_left,
}
use uavcan.Marshal.ScalarCodec.RoundTrip.{decode-encode}

bitarray_copy-bits_example : bit_at (bitarray_copy (0x5a ∷ 0xc3 ∷ []) 3 9 (0xff ∷ 0 ∷ []) 6) 7 ≡ (
    if in_window 6 9 7 then bit_at (0x5a ∷ 0xc3 ∷ []) (3 + (7 - 6)) else bit_at (0xff ∷ 0 ∷ []) 7)
bitarray_copy-bits_example =
    bitarray_copy-bits (0x5a ∷ 0xc3 ∷ []) 3 9 (0xff ∷ 0 ∷ []) 6 (omega arith) 7

-- Three bits are in the stream: 1, 0, 1.
abbrev stream : BitStream StaticBuffer
stream = record {
  buf = record { bytes = 0xa0 ∷ 0 ∷ 0 ∷ 0 ∷ []; max_write_pos = 1 };
  bit_offset = 3;
  byte_cache = 0xa0;
}

cut_table : every 8 (λ j. ltb j 3 || digit (7 - j) 0xa0 == 0) ≡ true
unfolding every digit
cut_table = refl

stream-IsCut : IsCut 0xa0 3
stream-IsCut j le lt = let at_j = every-at 8 _ j cut_table lt in ground arith

stream-IsCached : IsCached static_buffer static_buffer-IsBuffer stream
stream-IsCached = record { stored = λ used. refl; cut = stream-IsCut; available = omega arith }

write_ok : (BitStream.write static_buffer stream (0x5a ∷ 0xc0 ∷ []) 10).0 ≡ result_ok
unfolding BitStream.write merged_bytes next_cache bitarray_copy copy_loop copied_bits write_mask
    src_data merge_byte Static.write copy_at clip
write_ok = refl

read-write_bits_example :
    let s' = (BitStream.write static_buffer stream (0x5a ∷ 0xc0 ∷ []) 10).1 in
    let r = BitStream.read static_buffer (record s' { bit_offset = 3 }) (7 ∷ 7 ∷ 7 ∷ []) 10 in
    (r.0 ≡ result_ok)
    × (r.2.bit_offset ≡ s'.bit_offset)
    × (length r.1 ≡ 3)
    × ((j : ℕ)
        → bit_at r.1 j ≡ (
            if ltb j 10
            then bit_at (0x5a ∷ 0xc0 ∷ []) j
            else if ltb j 16
            then 0
            else bit_at (7 ∷ 7 ∷ 7 ∷ []) j))
    × ((i : ℕ)
        → i < 3
        → stream_bit static_buffer static_buffer-IsBuffer s' i
          ≡ stream_bit static_buffer static_buffer-IsBuffer stream i)
    × IsCached static_buffer static_buffer-IsBuffer s'
read-write_bits_example =
    read-write_bits static_buffer static_buffer-IsBuffer stream (0x5a ∷ 0xc0 ∷ []) (7 ∷ 7 ∷ 7 ∷ [])
      10 (omega arith) stream-IsCached write_ok

-- A stream over a buffer of one byte.
abbrev fresh : BitStream StaticBuffer
fresh = make_stream (record { bytes = 0 ∷ []; max_write_pos = 0 })

twelve_refused : (BitStream.write static_buffer fresh (0xff ∷ 0xf0 ∷ []) 12).0 ≡ done 0
unfolding BitStream.write merged_bytes next_cache bitarray_copy copy_loop copied_bits write_mask
    src_data merge_byte Static.write copy_at clip
twelve_refused = refl

four_written :
    let s' = (BitStream.write static_buffer fresh (0xff ∷ 0xf0 ∷ []) 12).1 in
    (BitStream.write static_buffer s' (0 ∷ []) 4).0 ≡ result_ok
unfolding BitStream.write merged_bytes next_cache bitarray_copy copy_loop copied_bits write_mask
    src_data merge_byte Static.write copy_at clip
four_written = refl

-- The first of four bits that are 0 is that of the twelve before.
write_failed-write_example :
    let s' = (BitStream.write static_buffer fresh (0xff ∷ 0xf0 ∷ []) 12).1 in
    stream_bit static_buffer static_buffer-IsBuffer
      (BitStream.write static_buffer s' (0 ∷ []) 4).1
      0
    ≡ max (bit_at (0 ∷ []) 0) (bit_at (0xff ∷ 0xf0 ∷ []) 8)
write_failed-write_example =
    write_failed-write static_buffer static_buffer-IsBuffer fresh (0xff ∷ 0xf0 ∷ []) 12
      (omega arith) (make_stream-IsCached static_buffer static_buffer-IsBuffer fresh.buf) (0 ∷ []) 4
      (omega arith) (λ e. absurd (ground (arith, twelve_refused))) (omega arith) four_written 0
      (omega arith) (omega arith)

abbrev int16 : ScalarType
int16 = record { size = 2; is_signed = true }

-- -5 in twelve bits.
encode_ok : (encode static_buffer int16 12 stream (2 ^ 16 - 5)).0 ≡ result_ok
unfolding encode encode_bytes align_left bytes_of clear_extra_bits BitStream.write merged_bytes
    next_cache bitarray_copy copy_loop copied_bits write_mask src_data merge_byte Static.write
    copy_at clip
encode_ok = refl

decode-encode_example :
    let s' = (encode static_buffer int16 12 stream (2 ^ 16 - 5)).1 in
    let r = decode static_buffer int16 12 (record s' { bit_offset = 3 }) 0 in
    (r.0 ≡ result_ok)
    × (r.1 ≡ 2 ^ 16 - 5)
    × (r.2.bit_offset ≡ s'.bit_offset)
    × IsCached static_buffer static_buffer-IsBuffer s'
decode-encode_example =
    decode-encode static_buffer static_buffer-IsBuffer int16 12 (2 ^ 16 - 5) 0 stream (omega arith)
      (omega arith) (omega arith) (inr (omega arith)) stream-IsCached encode_ok
