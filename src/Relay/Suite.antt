-- ===== src/Relay/Suite.antt =====
-- The source's own tests of the relay.
pub mod Frames
pub mod FramesPass
pub mod Reads
pub mod ReadsPass
