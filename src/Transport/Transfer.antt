-- ===== src/Transport/Transfer.antt =====
-- libuavcan/include/uavcan/transport/transfer.hpp and libuavcan/src/transport/uc_transfer.cpp:
-- transfer types, priorities and node ids, the last two as their value_.
use uavcan.Base.{ℕ, ◌^◌, Bool, true, false, not, ◌&&◌, ltb, leb, ◌==◌}

-- `invalid` is NumTransferTypes.
pub data TransferType : Type 0 where
  service_response service_request message_broadcast invalid : TransferType

abbrev pub is_message_broadcast : TransferType → Bool
is_message_broadcast message_broadcast = true
is_message_broadcast _ = false

abbrev pub same_type : TransferType → TransferType → Bool
same_type service_response service_response = true
same_type service_request service_request = true
same_type message_broadcast message_broadcast = true
same_type invalid invalid = true
same_type _ _ = false

-- TransferPriority::isValid; the value is a uint8_t, 0xFF by default.
abbrev pub priority_is_valid : ℕ → Bool
priority_is_valid value = ltb value (2 ^ 5)

abbrev pub default_priority : ℕ
default_priority = 16

-- NodeID::isValid, isBroadcast and isUnicast: 0 is the broadcast id, and the default 0xFF is
-- invalid.
abbrev pub node_id_is_valid : ℕ → Bool
node_id_is_valid value = leb value 127

abbrev pub is_broadcast : ℕ → Bool
is_broadcast value = value == 0

abbrev pub is_unicast : ℕ → Bool
is_unicast value = leb value 127 && not (value == 0)
