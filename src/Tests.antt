-- ===== src/Tests.antt =====
-- The code run on concrete inputs.
pub mod Addresses
pub mod Requests
pub mod Responses
pub mod Datagrams
pub mod Handshakes
pub mod Codes
pub mod ClientWire
pub mod ClientDialogue
pub mod ClientDatagrams
pub mod Names
pub mod Http
pub mod Engine
pub mod Programs
pub mod Configs
pub mod Interfaces
pub mod Macos
