-- ===== src/Transport/TransferId.antt =====
-- TransferID of libuavcan/include/uavcan/transport/transfer.hpp and
-- libuavcan/src/transport/uc_transfer.cpp, as its value_ of five bits.
pub mod Distance
use uavcan.Base.{ℕ, ◌+◌, ◌-◌, ◌^◌, bit_and, ltb, if◌then◌else◌}

abbrev pub max_value : ℕ
max_value = 2 ^ 5 - 1

abbrev pub half : ℕ
half = 16

unfoldable pub increment : ℕ → ℕ
increment value = bit_and (value + 1) max_value

-- int d = rhs - this; if it is negative, 1 << BitLen is added.
unfoldable pub compute_forward_distance : ℕ → ℕ → ℕ
compute_forward_distance value rhs = if ltb rhs value then rhs + 2 ^ 5 - value else rhs - value
