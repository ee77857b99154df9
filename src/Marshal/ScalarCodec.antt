-- ===== src/Marshal/ScalarCodec.antt =====
-- ScalarCodec of libuavcan/include/uavcan/marshal/scalar_codec.hpp and
-- libuavcan/src/marshal/uc_scalar_codec.cpp, for integer types on a little-endian machine, where
-- convertByteOrder does nothing. A value of a type of `size` bytes is its bit pattern.
pub mod Bytes
pub mod Signs
pub mod Received
pub mod RoundTrip
use uavcan.Base.{
  ℕ, zero, suc, ◌+◌, ◌-◌, ◌*◌, ◌/◌, ◌%◌, ◌^◌, bit_and, bit_or, bit_xor, Bool, true, false, not,
  ◌&&◌, List, [], ◌∷◌, get_or, set, replicate, ◌==◌, if◌then◌else◌,
}
use uavcan.Can.IoManager.{IoResult, done, failed}
use uavcan.Marshal.BitStream
use uavcan.Marshal.BitStream.{TransferBuffer, BitStream}

-- The integer type of a scalar: the size in bytes and the signedness.
pub record ScalarType : Type 0 where
  pub size : ℕ
  pub is_signed : Bool

-- The union of a value and its bytes.
unfoldable pub bytes_of : (size value : ℕ) → List ℕ
bytes_of zero value = []
bytes_of (suc size) value = (value % 2 ^ 8) ∷ bytes_of size (value / 2 ^ 8)

unfoldable pub value_of : List ℕ → ℕ
value_of [] = 0
value_of (b ∷ bs) = b + 2 ^ 8 * value_of bs

unfoldable pub clear_extra_bits : ScalarType → (bitlen value : ℕ) → ℕ
clear_extra_bits t bitlen value =
    if 8 * t.size == bitlen then value else bit_and value (2 ^ bitlen - 1)

unfoldable pub fix_twos_complement : ScalarType → (bitlen value : ℕ) → ℕ
fix_twos_complement t bitlen value =
    if t.is_signed && not (8 * t.size == bitlen)
    then (if bit_and value (2 ^ (bitlen - 1)) == 0
        then value
        else bit_or value (bit_xor (2 ^ (8 * t.size) - 1) (2 ^ bitlen - 1)))
    else value

-- The shift of the last byte in encodeBytesImpl, and back in decodeBytesImpl.
unfoldable pub align_left : List ℕ → (bitlen : ℕ) → List ℕ
align_left bytes bitlen =
    if bitlen % 8 == 0
    then bytes
    else set bytes (bitlen / 8) (get_or bytes (bitlen / 8) 0 * 2 ^ (8 - bitlen % 8) % 2 ^ 8)

unfoldable pub align_right : List ℕ → (bitlen : ℕ) → List ℕ
align_right bytes bitlen =
    if bitlen % 8 == 0
    then bytes
    else set bytes (bitlen / 8) (get_or bytes (bitlen / 8) 0 / 2 ^ (8 - bitlen % 8) % 2 ^ 8)

module _ {B : Type 0} (b : TransferBuffer B) where
  unfoldable pub encode_bytes : BitStream B → List ℕ → ℕ → IoResult × BitStream B
  encode_bytes s bytes bitlen = BitStream.write b s (align_left bytes bitlen) bitlen

  unfoldable pub decode_bytes : BitStream B → List ℕ → ℕ → IoResult × List ℕ × BitStream B
  decode_bytes s bytes bitlen =
      let (read_res, bytes', s') = BitStream.read b s bytes bitlen in
      elim read_res [
        | failed e ↦ (failed e, bytes', s')
        | done n ↦ (done n, if n == 0 then bytes' else align_right bytes' bitlen, s')
      ]

  unfoldable pub encode :
      ScalarType → (bitlen : ℕ) → BitStream B → (value : ℕ) → IoResult × BitStream B
  encode t bitlen s value =
      encode_bytes s (bytes_of t.size (clear_extra_bits t bitlen value)) bitlen

  -- `value` is what the variable holds before.
  unfoldable pub decode :
      ScalarType → (bitlen : ℕ) → BitStream B → (value : ℕ) → IoResult × ℕ × BitStream B
  decode t bitlen s value =
      let (read_res, bytes, s') = decode_bytes s (replicate t.size 0) bitlen in
      elim read_res [
        | failed e ↦ (failed e, value, s')
        | done n ↦
            (done n, if n == 0 then value else fix_twos_complement t bitlen (value_of bytes), s')
      ]
