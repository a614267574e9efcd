-- ===== src/Server.antt =====
-- The server side: the connections of urpc/core/source/urpc_server.cc.
pub mod State
pub mod Terminal
pub mod Stream
pub mod Request
pub mod Context
pub mod Events
mod Rules
pub mod Once
pub mod Queues
pub mod Writes
pub mod Endings
pub mod Reads
pub mod Unary
pub mod Replies
pub mod Lifecycle
