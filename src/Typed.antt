-- ===== src/Typed.antt =====
-- The typed API over the core (urpc/api). upb is outside: what it encodes and decodes is a parameter,
-- and whether upb_Arena_New gives an arena is an argument. A pointer to a message is an Option.
pub mod Writer
pub mod Settles
pub mod Delivers
pub mod Answers
pub mod Client
pub mod Reads
pub mod RoundTrip
pub mod Handlers
pub mod Channels
pub mod Closed
