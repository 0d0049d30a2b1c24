-- ===== src/Crates.antt =====
-- The third-party crates that the program calls: records of the operations that it uses, with the
-- documented behaviour that it relies on.
pub mod Bytes
pub mod ByteOrder
pub mod Crc32
pub mod DashMap
