-- ===== src/Tests.antt =====
-- Runs of the definitions at concrete inputs, and each property at an input that meets its
-- hypotheses.
mod Framing
mod Connections
mod Channels
mod Addresses
mod Lives
mod Sessions
mod Generated
mod Typed
mod Trips
