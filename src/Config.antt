-- ===== src/Config.antt =====
-- config.rs: the configuration as it is loaded, its words, and the name servers that it asks for.
pub mod Words
pub mod Types
pub mod Dns
pub mod Load
