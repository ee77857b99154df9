-- ===== src/Transport/TransferBuffer.antt =====
-- libuavcan/include/uavcan/transport/transfer_buffer.hpp and
-- libuavcan/src/transport/uc_transfer_buffer.cpp. Offsets and lengths are below 2^31, so their sums
-- do not wrap, and sizes below 2^16; a null data pointer is not passed.
pub mod Static
pub mod Entry
pub mod Manager
use uavcan.Base.{ℕ, ◌+◌, ◌-◌, ◌≤◌, ◌≡◌, arith, min, ltb, if◌then◌else◌}

-- How each read and write limits its length; the two class's read and write share these lines.
unfoldable pub clip : ℕ → ℕ → ℕ → ℕ
clip limit offset len = if ltb limit (offset + len) then limit - offset else len

pub clip_form :
    (limit offset len : ℕ) → offset ≤ limit → clip limit offset len ≡ min len (limit - offset)
unfolding clip
clip_form limit offset len h = ground arith
