-- ===== src/Transport.antt =====
pub mod Crc
pub mod Transfer
pub mod TransferId
pub mod Frame
pub mod TransferBuffer
pub mod Receiver
pub mod Sender
pub mod Listener
pub mod Registry
pub mod Dispatcher
pub mod AcceptanceFilter
