-- ===== src/Channel.antt =====
-- The client side: urpc/core/source/urpc_channel.cc.
pub mod State
pub mod Calls
pub mod Streams
pub mod Session
pub mod Api
pub mod Ledger
pub mod Answers
pub mod Faults
pub mod Loss
pub mod Queues
pub mod Receives
