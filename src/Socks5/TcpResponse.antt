-- ===== src/Socks5/TcpResponse.antt =====
-- protocol/socks/socks5.rs: the header of a TCP response.
pub mod RoundTrip
pub mod Sound
use tache_rs.Prelude.{ℕ, ◌+◌, [], ◌∷◌, ◌==◌}
use tache_rs.Std.Exec.{Exec, Never, pure, ◌>>=◌, ◌>>◌, index, ensure}
use tache_rs.Std.Io.{Reader, Writer, IoError}
use tache_rs.Crates.Async.{AsyncCrates, BytesMut}
use tache_rs.Socks5.Consts.{socks5_version}
use tache_rs.Socks5.Reply
use tache_rs.Socks5.Reply.{Reply, connection_refused}
use tache_rs.Socks5.Error.{Error, error}
use tache_rs.Socks5.Address
use tache_rs.Socks5.Address.{Address, fetch, write_packet}

pub record TcpResponseHeader : Type 0 where
  pub reply : Reply
  pub address : Address

unfoldable pub serialized_len : TcpResponseHeader → ℕ
serialized_len h = Address.serialized_len h.address + 3

module _ (crates : AsyncCrates) where
  unfoldable pub read_from : Exec Reader Error TcpResponseHeader
  unfolding fetch
  read_from = do
    buf ← fetch crates 3
    ver ← index buf 0
    reply_code ← index buf 1
    ensure (ver == socks5_version) (error connection_refused "Unsupported Socks version")
    address ← Address.read_from crates
    pure (record { reply = Reply.from_u8 reply_code; address = address })

  unfoldable pub write_to_buf : TcpResponseHeader → Exec BytesMut Never Unit
  write_to_buf h = do
    crates.put_slice (socks5_version ∷ Reply.as_u8 h.reply ∷ 0x00 ∷ [])
    Address.write_to_buf crates h.address

  unfoldable pub write_to : TcpResponseHeader → Exec Writer IoError Unit
  unfolding serialized_len
  write_to h = write_packet crates (serialized_len h) (write_to_buf h)
