-- ===== src/Transport/Receiver/Bounds.antt =====
-- uc_transfer_receiver.cpp: the ranges that the bit fields of a receiver keep.
use uavcan.Base.{◌^◌, ◌≤◌, ◌<◌}
use uavcan.Transport.TransferBuffer.Entry.{Entry}
use uavcan.Transport.TransferBuffer.Manager
use uavcan.Transport.TransferBuffer.Manager.{Manager}
use uavcan.Transport.Receiver.{Receiver}

-- Five bits of a transfer id, of an error count, sixteen of an interval of at least a millisecond
-- and of a position, two of an interface index.
abbrev pub IsBounded : Receiver → Type 0
IsBounded r =
    (r.tid < 32)
    × (r.error_cnt < 32)
    × (1 ≤ r.transfer_interval_msec)
    × (r.transfer_interval_msec ≤ 65535)
    × (r.buffer_write_pos < 2 ^ 16)
    × (r.iface_index ≤ 3)
