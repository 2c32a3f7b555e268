-- ===== src/Std/Io.antt =====
-- `std::io`: errors, and a stream as the bytes that are still to come.
use tache_rs.Prelude.{ℕ, String, Option, none, some, List, [], ◌++◌, split_at}
use tache_rs.Std.Exec.{Exec, ok, err}

-- The kinds that the program names, and the end of a stream.
pub data ErrorKind : Type 0 where
  other invalid_data invalid_input permission_denied unexpected_eof write_zero : ErrorKind
  -- An error of the operating system, by its number.
  os : ℕ → ErrorKind

-- What an error was made from: a text, or the bytes that `String::from_utf8` refused.
pub data Payload : Type 0 where
  message : String → Payload
  from_utf8_error : List ℕ → Payload

pub record IoError : Type 0 where
  pub kind : ErrorKind
  pub payload : Payload

abbrev pub io_error : ErrorKind → String → IoError
io_error k m = record { kind = k; payload = message m }

-- `Error::description`
abbrev pub describe : Payload → String
describe (message m) = m
describe (from_utf8_error bytes) = "invalid utf-8"

abbrev pub description : IoError → String
description e = describe e.payload

abbrev pub end_of_file : IoError
end_of_file = io_error unexpected_eof "failed to fill whole buffer"

-- A source of bytes. After the last byte a read meets the end of the stream, or `fault`.
pub record Reader : Type 0 where
  pub bytes : List ℕ
  pub fault : Option IoError

abbrev pub stream_end : Option IoError → IoError
stream_end none = end_of_file
stream_end (some e) = e

abbrev pub take_bytes : Option (List ℕ × List ℕ) → Exec Reader IoError (List ℕ)
take_bytes none r = (err (stream_end r.fault), record r { bytes = [] })
take_bytes (some (front, rest)) r = (ok front, record r { bytes = rest })

-- `Read::read_exact` into a buffer of `n` bytes: all of it is filled, or there is an error.
abbrev pub read_exact : ℕ → Exec Reader IoError (List ℕ)
read_exact n r = take_bytes (split_at n r.bytes) r

-- A sink of bytes; `refuses` gives the error of a write after the bytes that were written so far.
pub record Writer : Type 0 where
  pub written : List ℕ
  pub refuses : List ℕ → Option IoError

abbrev pub put_bytes : Option IoError → List ℕ → Exec Writer IoError Unit
put_bytes none xs w = (ok tt, record w { written = w.written ++ xs })
put_bytes (some e) xs w = (err e, w)

-- `Write::write_all`
abbrev pub write_all : List ℕ → Exec Writer IoError Unit
write_all xs w = put_bytes (w.refuses w.written) xs w
