-- ===== src/Socks5/TcpRequest.antt =====
-- protocol/socks/socks5.rs: the header of a TCP request after the handshake.
pub mod RoundTrip
pub mod Sound
use tache_rs.Prelude.{ℕ, ◌+◌, [], ◌∷◌, ◌==◌}
use tache_rs.Std.Exec.{Exec, Never, pure, ◌>>=◌, ◌>>◌, index, ensure, or_fail}
use tache_rs.Std.Io.{Reader, Writer, IoError}
use tache_rs.Crates.Async.{AsyncCrates, BytesMut}
use tache_rs.Socks5.Consts.{socks5_version}
use tache_rs.Socks5.Command
use tache_rs.Socks5.Command.{Command}
use tache_rs.Socks5.Reply.{connection_refused, command_not_supported}
use tache_rs.Socks5.Error.{Error, error}
use tache_rs.Socks5.Address
use tache_rs.Socks5.Address.{Address, fetch, write_packet}

pub record TcpRequestHeader : Type 0 where
  pub command : Command
  pub address : Address

unfoldable pub serialized_len : TcpRequestHeader → ℕ
serialized_len h = Address.serialized_len h.address + 3

module _ (crates : AsyncCrates) where
  unfoldable pub read_from : Exec Reader Error TcpRequestHeader
  unfolding fetch Command.from_u8
  read_from = do
    buf ← fetch crates 3
    ver ← index buf 0
    ensure (ver == socks5_version) (error connection_refused "Unsupported Socks version")
    cmd ← index buf 1
    command ← or_fail (Command.from_u8 cmd) (error command_not_supported "Unsupported command")
    address ← Address.read_from crates
    pure (record { command = command; address = address })

  unfoldable pub write_to_buf : TcpRequestHeader → Exec BytesMut Never Unit
  write_to_buf h = do
    crates.put_slice (socks5_version ∷ Command.as_u8 h.command ∷ 0x00 ∷ [])
    Address.write_to_buf crates h.address

  unfoldable pub write_to : TcpRequestHeader → Exec Writer IoError Unit
  unfolding serialized_len
  write_to h = write_packet crates (serialized_len h) (write_to_buf h)
