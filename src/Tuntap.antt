-- ===== src/Tuntap.antt =====
-- The crate tuntap: network interfaces in the hands of a program, on POSIX systems and Linux.
pub mod Error
pub mod SockAddr
pub mod Fd
pub mod Opening
pub mod Device
pub mod Macos
pub mod Split
pub mod Builder
