-- ===== src/Marshal.antt =====
-- libuavcan/include/uavcan/marshal and libuavcan/src/marshal: bits, scalars and integers.
pub mod BitArray
pub mod BitStream
pub mod ScalarCodec
