-- ===== src/Socks5.antt =====
-- protocol/socks/socks5.rs: the SOCKS 5 packets of RFC 1928, read from a stream and written to one.
pub mod Consts
pub mod Command
pub mod Reply
pub mod Error
pub mod Address
pub mod TcpRequest
pub mod TcpResponse
pub mod HandshakeRequest
pub mod HandshakeResponse
pub mod UdpAssociate
