-- ===== src/Crates.antt =====
-- Third-party crates, as parameters with documented laws.
pub mod Async
pub mod ByteOrder
