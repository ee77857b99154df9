-- ===== src/Util.antt =====
-- libuavcan/include/uavcan/util: the containers.
pub mod Map
pub mod Multiset
pub mod LinkedList
