-- ===== src/FileTransfer.antt =====
-- src/filetransfer/filetransfer.c, filetransfer.h and message.h: files over the channels of a stream.
pub mod Data
pub mod Text
pub mod Decimal
pub mod Cookie
pub mod Packet
pub mod Events
pub mod Connection
pub mod Calls
pub mod Files
pub mod Slots
pub mod Moves
pub mod CallMoves
pub mod StreamMoves
pub mod Run
pub mod Exchange
pub mod Delivery
pub mod Guards
mod Tests
