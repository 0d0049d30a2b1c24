-- ===== src/Tests.antt =====
-- Runs at concrete inputs, with the crates replaced by small functions that have their laws.
mod Suite
pub mod Instances
pub mod Maps
pub mod Samples
pub mod Frames
pub mod Reads
pub mod Peers
pub mod Folders
pub mod Transfers
pub mod Pieces
pub mod Fills
pub mod Relays
pub mod Folder
