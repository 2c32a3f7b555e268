-- ===== src/Socks5/HandshakeResponse.antt =====
-- protocol/socks/socks5.rs: the answer of the server, which chooses an authentication method.
pub mod RoundTrip
use tache_rs.Prelude.{ℕ, [], ◌∷◌, ◌==◌}
use tache_rs.Std.Exec.{Exec, Never, pure, ◌>>=◌, ◌>>◌, index, ensure}
use tache_rs.Std.Io.{Reader, Writer, IoError, io_error, other}
use tache_rs.Crates.Async.{AsyncCrates, BytesMut}
use tache_rs.Socks5.Consts.{socks5_version}
use tache_rs.Socks5.Address.{write_packet}

pub record HandshakeResponse : Type 0 where
  pub chosen_method : ℕ

unfoldable pub serialized_len : HandshakeResponse → ℕ
serialized_len h = 2

module _ (crates : AsyncCrates) where
  unfoldable pub read_from : Exec Reader IoError HandshakeResponse
  read_from = do
    buf ← crates.read_exact 2
    ver ← index buf 0
    met ← index buf 1
    ensure (ver == socks5_version) (io_error other "Invalid Socks5 version")
    pure (record { chosen_method = met })

  unfoldable pub write_to_buf : HandshakeResponse → Exec BytesMut Never Unit
  write_to_buf h = crates.put_slice (socks5_version ∷ h.chosen_method ∷ [])

  unfoldable pub write_to : HandshakeResponse → Exec Writer IoError Unit
  unfolding serialized_len
  write_to h = write_packet crates (serialized_len h) (write_to_buf h)
