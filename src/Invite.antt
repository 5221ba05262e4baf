-- ===== src/Invite.antt =====
-- The friend invitations of src/carrier/ela_carrier.c: requests and responses that are cut into
-- fragments by the sender and put together again by the receiver.
pub mod Data
pub mod Send
pub mod Receive
pub mod Fragments
pub mod Assembly
pub mod Completion
pub mod Address
pub mod Sending
mod Simple
mod Tests
