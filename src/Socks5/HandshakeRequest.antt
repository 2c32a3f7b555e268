-- ===== src/Socks5/HandshakeRequest.antt =====
-- protocol/socks/socks5.rs: the first packet of the client, which lists authentication methods.
pub mod RoundTrip
pub mod Sound
use tache_rs.Prelude.{ℕ, ◌+◌, ◌%◌, List, [], ◌∷◌, length, ◌==◌}
use tache_rs.Std.Exec.{Exec, Never, pure, ◌>>=◌, ◌>>◌, index, ensure}
use tache_rs.Std.Io.{Reader, Writer, IoError, io_error, other}
use tache_rs.Crates.Async.{AsyncCrates, BytesMut}
use tache_rs.Socks5.Consts.{socks5_version}
use tache_rs.Socks5.Address.{write_packet}

pub record HandshakeRequest : Type 0 where
  pub methods : List ℕ

unfoldable pub serialized_len : HandshakeRequest → ℕ
serialized_len h = 2 + length h.methods

module _ (crates : AsyncCrates) where
  unfoldable pub read_from : Exec Reader IoError HandshakeRequest
  read_from = do
    buf ← crates.read_exact 2
    ver ← index buf 0
    nmet ← index buf 1
    ensure (ver == socks5_version) (io_error other "Invalid Socks5 version")
    methods ← crates.read_exact nmet
    pure (record { methods = methods })

  -- `methods.len() as u8` wraps.
  unfoldable pub write_to_buf : HandshakeRequest → Exec BytesMut Never Unit
  write_to_buf h = do
    crates.put_slice (socks5_version ∷ (length h.methods % 256) ∷ [])
    crates.put_slice h.methods

  unfoldable pub write_to : HandshakeRequest → Exec Writer IoError Unit
  unfolding serialized_len
  write_to h = write_packet crates (serialized_len h) (write_to_buf h)
