-- ===== src/Socks5/UdpAssociate.antt =====
-- protocol/socks/socks5.rs: the header of a datagram.
pub mod RoundTrip
pub mod Sound
use tache_rs.Prelude.{ℕ, ◌+◌, [], ◌∷◌}
use tache_rs.Std.Exec.{Exec, Never, pure, ◌>>=◌, ◌>>◌, index}
use tache_rs.Std.Io.{Reader, Writer, IoError}
use tache_rs.Crates.Async.{AsyncCrates, BytesMut}
use tache_rs.Socks5.Error.{Error}
use tache_rs.Socks5.Address
use tache_rs.Socks5.Address.{Address, fetch, write_packet}

pub record UdpAssociateHeader : Type 0 where
  pub frag : ℕ
  pub address : Address

unfoldable pub serialized_len : UdpAssociateHeader → ℕ
serialized_len h = 3 + Address.serialized_len h.address

module _ (crates : AsyncCrates) where
  unfoldable pub read_from : Exec Reader Error UdpAssociateHeader
  unfolding fetch
  read_from = do
    buf ← fetch crates 3
    frag ← index buf 2
    address ← Address.read_from crates
    pure (record { frag = frag; address = address })

  unfoldable pub write_to_buf : UdpAssociateHeader → Exec BytesMut Never Unit
  write_to_buf h = do
    crates.put_slice (0x00 ∷ 0x00 ∷ h.frag ∷ [])
    Address.write_to_buf crates h.address

  unfoldable pub write_to : UdpAssociateHeader → Exec Writer IoError Unit
  unfolding serialized_len
  write_to h = write_packet crates (serialized_len h) (write_to_buf h)
