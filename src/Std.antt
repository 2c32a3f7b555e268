-- ===== src/Std.antt =====
-- What the program uses of the language and of Rust's standard library.
pub mod Exec
pub mod Io
pub mod Net
pub mod Tcp
pub mod Slice
pub mod Array
pub mod Text
pub mod Int
pub mod Parse
pub mod Utf8
