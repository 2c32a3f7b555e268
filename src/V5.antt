-- ===== src/V5.antt =====
-- protocol/socks/v5.rs: the client side of SOCKS 5, over TCP and UDP.
pub mod Wire
pub mod Format
pub mod WriteAddr
pub mod ReadAddr
pub mod Response
pub mod Client
pub mod Datagram
pub mod Access
