-- ===== src/Mux.antt =====
-- src/session/multiplex_handler.c, multiplex_handler.h and channels.h: many channels over one stream.
pub mod Protocol
pub mod PacketType
pub mod Channel
pub mod Handler
pub mod Receive
pub mod Reassembly
pub mod Filling
pub mod Stream
pub mod Delivery
pub mod Feed
pub mod Sending
pub mod Signals
pub mod Checked
pub mod History
pub mod Timing
pub mod Refusal
pub mod Simple
mod Tests
mod LimitTests
pub mod Local
pub mod Checkpoint
pub mod Effects
pub mod Transitions
pub mod Consistency
pub mod Opening
pub mod Requests
pub mod LocalEffects
pub mod Walks
pub mod Lifecycle
