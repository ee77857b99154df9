-- ===== src/Marshal/BitArray.antt =====
-- bitarrayCopy of libuavcan/src/marshal/uc_bit_array_copy.cpp. The bits of a byte count from the
-- most significant one.
pub mod Copied
use uavcan.Base.{
  ℕ, zero, suc, ◌+◌, ◌-◌, ◌*◌, ◌/◌, ◌%◌, ◌^◌, bit_and, bit_or, bit_xor, min, max, List, get_or, set,
  ◌==◌, if◌then◌else◌, digit,
}

unfoldable pub copied_bits : (rest src_bit dst_bit : ℕ) → ℕ
copied_bits rest src_bit dst_bit = min rest (8 - max src_bit dst_bit)

unfoldable pub write_mask : (copy_bits dst_bit : ℕ) → ℕ
write_mask copy_bits dst_bit = 0xff00 / 2 ^ copy_bits % 2 ^ 8 / 2 ^ dst_bit % 2 ^ 8

unfoldable pub src_data : (byte src_bit dst_bit : ℕ) → ℕ
src_data byte src_bit dst_bit = byte * 2 ^ src_bit / 2 ^ dst_bit % 2 ^ 8

-- The byte that a round writes; the complement is taken on eight bits.
unfoldable pub merge_byte : (old new mask : ℕ) → ℕ
merge_byte old new mask = bit_or (bit_and old (bit_xor mask 0xff)) (bit_and new mask) % 2 ^ 8

-- The loop, where `rest` is last_bit - src_offset. A round copies a bit at least.
unfoldable pub copy_loop : (fuel : ℕ) → List ℕ → ℕ → ℕ → List ℕ → ℕ → List ℕ
copy_loop zero src src_offset rest dst dst_offset = dst
copy_loop (suc fuel) src src_offset rest dst dst_offset =
    let count = copied_bits rest (src_offset % 8) (dst_offset % 8) in
    let mask = write_mask count (dst_offset % 8) in
    let new = src_data (get_or src (src_offset / 8) 0) (src_offset % 8) (dst_offset % 8) in
    let byte = merge_byte (get_or dst (dst_offset / 8) 0) new mask in
    let more =
      copy_loop fuel src (src_offset + count) (rest - count) (set dst (dst_offset / 8) byte)
        (dst_offset + count) in
    if rest == 0 then dst else more

unfoldable pub bitarray_copy : List ℕ → ℕ → ℕ → List ℕ → ℕ → List ℕ
bitarray_copy src src_offset src_len dst dst_offset =
    copy_loop src_len src src_offset src_len dst dst_offset

-- The bit of an array at an index.
abbrev pub bit_at : List ℕ → ℕ → ℕ
bit_at bytes i = digit (7 - i % 8) (get_or bytes (i / 8) 0)
