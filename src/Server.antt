-- ===== src/Server.antt =====
-- server/server.rs: the server that saves files.
pub mod Reader
pub mod Arrival
pub mod Bounds
pub mod Checked
pub mod Session
pub mod Folder
pub mod File
pub mod Request
pub mod Address
pub mod Suite
