-- ===== src/Transport/Crc.antt =====
-- libuavcan/include/uavcan/transport/crc.hpp and libuavcan/src/transport/uc_crc.cpp: the transfer
-- CRC. `add` is the build with the table, `Tiny.add` the one under UAVCAN_TINY.
mod Table
pub mod Linear
pub mod Tiny
pub mod Detect
use Table.{table}
use uavcan.Base.{
  ℕ, zero, suc, ◌*◌, ◌/◌, ◌%◌, ◌^◌, bit_and, bit_xor, List, [], ◌∷◌, get_or, ◌==◌, if◌then◌else◌,
}

-- TransferCRC(): value_ is 0xFFFF.
abbrev pub initial : ℕ
initial = 0xffff

-- add(uint8_t) with the table; the casts to uint16_t are `% 2 ^ 16`.
unfoldable pub add : ℕ → ℕ → ℕ
unfolding table
add value byte =
    let index = bit_and (bit_xor (value / 2 ^ 8) byte % 2 ^ 16) 0xff in
    bit_and (bit_xor (value * 2 ^ 8) (get_or table index 0) % 2 ^ 16) 0xffff

-- One round of the loop of the tiny build.
pub tiny_shift : ℕ → ℕ
tiny_shift value =
    if bit_and value 0x8000 == 0
    then value * 2 % 2 ^ 16
    else bit_xor (value * 2 % 2 ^ 16) 0x1021 % 2 ^ 16

pub tiny_shifts : ℕ → ℕ → ℕ
tiny_shifts zero value = value
tiny_shifts (suc bit) value = tiny_shifts bit (tiny_shift value)

-- add(uint8_t) under UAVCAN_TINY.
pub tiny_add : ℕ → ℕ → ℕ
tiny_add value byte = tiny_shifts 8 (bit_xor value (byte * 2 ^ 8 % 2 ^ 16))

-- add(const uint8_t*, unsigned): the bytes in order.
unfoldable pub add_bytes : ℕ → List ℕ → ℕ
add_bytes value [] = value
add_bytes value (b ∷ bs) = add_bytes (add value b) bs
