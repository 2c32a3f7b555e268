-- ===== src/Http.antt =====
-- protocol/http/http.rs: the codec of HTTP/1.1, an encoder of responses and a decoder of requests.
pub mod Date
pub mod Encode
pub mod Decode
