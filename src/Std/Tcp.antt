-- ===== src/Std/Tcp.antt =====
-- `std::net::TcpStream`, and `std::io::BufReader` around one.
pub mod Buffered
use tache_rs.Prelude.{ℕ, zero, suc, List, [], ◌∷◌, length, take, drop, min}
use tache_rs.Std.Exec.{Exec, Outcome, ok, err, pure, ◌>>=◌}
use tache_rs.Std.Io
use tache_rs.Std.Io.{Reader, Writer, IoError, stream_end}

-- How many bytes one `read` returns is up to the network: at least one if any is left, and here
-- `burst n` more, where `n` bytes are left in all.
pub record TcpStream : Type 0 where
  pub input : Reader
  pub output : Writer
  pub burst : ℕ → ℕ

module _ {E A : Type 0} where
  abbrev pub on_input : TcpStream → Outcome E A × Reader → Outcome E A × TcpStream
  on_input t (x, r) = (x, record t { input = r })

  abbrev pub on_output : TcpStream → Outcome E A × Writer → Outcome E A × TcpStream
  on_output t (x, w) = (x, record t { output = w })

abbrev pub read_exact : ℕ → Exec TcpStream IoError (List ℕ)
read_exact n t = on_input t (Io.read_exact n t.input)

abbrev pub write_all : List ℕ → Exec TcpStream IoError Unit
write_all xs t = on_output t (Io.write_all xs t.output)

-- A `BufReader` over the stream, with what it has read ahead.
pub record BufReader : Type 0 where
  pub buffer : List ℕ
  pub inner : TcpStream
  pub capacity : ℕ

abbrev pub with_capacity : ℕ → TcpStream → BufReader
with_capacity n t = record { buffer = []; inner = t; capacity = n }

-- One `read` of the stream into the whole buffer of `suc n` bytes, at least one byte being there.
abbrev pub arrive : ℕ → BufReader → BufReader
arrive n b =
    let left = b.inner.input.bytes in
    let got = min n (suc (b.inner.burst (length left))) in
    record b {
      buffer = take got left;
      inner = record b.inner { input = record b.inner.input { bytes = drop got left } };
    }

-- The next byte of an empty buffer that was filled by one read.
abbrev pub pop : List ℕ → BufReader → Outcome IoError ℕ × BufReader
pop [] b = (err (stream_end b.inner.input.fault), b)
pop (x ∷ xs) b = (ok x, record b { buffer = xs })

abbrev pub next_from : List ℕ → Exec BufReader IoError ℕ
next_from [] b = let b' = arrive b.capacity b in pop b'.buffer b'
next_from (x ∷ xs) b = (ok x, record b { buffer = xs })

unfoldable pub next_byte : Exec BufReader IoError ℕ
next_byte b = next_from b.buffer b

-- `BufReader::read_exact` of fewer bytes than the capacity: the buffer is refilled, by one read of
-- the stream, whenever it is empty and a byte is wanted.
unfoldable pub read_buffered : ℕ → Exec BufReader IoError (List ℕ)
unfolding next_byte
read_buffered zero = pure []
read_buffered (suc n) = do x ← next_byte; xs ← read_buffered n; pure (x ∷ xs)
