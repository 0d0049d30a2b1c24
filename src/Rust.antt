-- ===== src/Rust.antt =====
-- What the program takes of Rust's standard library.
pub mod IoError
pub mod Cursor
pub mod IpAddr
pub mod Duration
pub mod Path
pub mod Disk
pub mod Text
pub mod Assert
