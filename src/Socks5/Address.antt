-- ===== src/Socks5/Address.antt =====
-- protocol/socks/socks5.rs: an address, read from a stream and written to a buffer or a stream.
-- `Address::read_from` passes its cursor to `Buf::take` by value and reads the port from it after
-- that; the model goes on from where `take` stopped, the one reading that the packet format allows.
pub mod Wire
pub mod Text
pub mod Write
pub mod Read
pub mod Sound
pub mod Truncated
use tache_rs.Prelude.{ℕ, ◌+◌, ◌*◌, List, [], ◌∷◌, length, leb, ◌==◌, if◌then◌else◌}
use tache_rs.Std.Exec.{Exec, Never, pure, fail, panic, ◌>>=◌, ◌>>◌, map_err, run_on, index, total}
use tache_rs.Std.Io.{Reader, Writer, IoError}
use tache_rs.Std.Net.{SocketAddrV4, SocketAddrV6, SocketAddr, v4, v6, octets_v4, segments}
use tache_rs.Std.Utf8.{is_utf8}
use tache_rs.Crates.Async.{AsyncCrates, BytesMut}
use tache_rs.Socks5.Consts.{
  socks5_addr_type_ipv4, socks5_addr_type_ipv6, socks5_addr_type_domain_name,
}
use tache_rs.Socks5.Reply.{general_failure, address_type_not_supported}
use tache_rs.Socks5.Error.{Error, error, from_io}

-- The name of a domain is a `String`: bytes in UTF-8.
pub data Address : Type 0 where
  socket_address : SocketAddr → Address
  domain_name_address : List ℕ → ℕ → Address

unfoldable pub get_addr_len : Address → ℕ
get_addr_len (socket_address (v4 a)) = 1 + 4 + 2
get_addr_len (socket_address (v6 a)) = 1 + 8 * 2 + 2
get_addr_len (domain_name_address name port) = 1 + 1 + length name + 2

unfoldable pub serialized_len : Address → ℕ
unfolding get_addr_len
serialized_len a = get_addr_len a

module _ (crates : AsyncCrates) where
  open crates use {
    read_exact, write_all, with_capacity, put_u8, put_u16_be, put_slice, get_u8, get_u16_be,
    take_collect,
  }

  -- `stream.read_exact(&mut buf).await?` in a function that returns the error of the protocol.
  unfoldable pub fetch : ℕ → Exec Reader Error (List ℕ)
  fetch n = map_err from_io (read_exact n)

  unfoldable pub read_ipv4 : Exec Reader Error Address
  unfolding fetch
  read_ipv4 = do
    buf ← fetch 6
    run_on buf (
        total (do
          a ← get_u8
          b ← get_u8
          c ← get_u8
          d ← get_u8
          port ← get_u16_be
          pure (
              socket_address
                (v4 (record { ip = record { a = a; b = b; c = c; d = d }; port = port })))))

  unfoldable pub read_ipv6 : Exec Reader Error Address
  unfolding fetch
  read_ipv6 = do
    buf ← fetch 18
    run_on buf (
        total (do
          a ← get_u16_be
          b ← get_u16_be
          c ← get_u16_be
          d ← get_u16_be
          e ← get_u16_be
          f ← get_u16_be
          g ← get_u16_be
          h ← get_u16_be
          port ← get_u16_be
          pure (
              socket_address (
                v6 (record {
                  ip = record { a = a; b = b; c = c; d = d; e = e; f = f; g = g; h = h };
                  port = port;
                  flowinfo = 0;
                  scope_id = 0;
                })))))

  -- `String::from_utf8(raw_addr)`, and the port behind it.
  unfoldable pub decode_domain : List ℕ → Exec (List ℕ) Error Address
  decode_domain raw cursor =
      if is_utf8 raw
      then (do port ← total get_u16_be; pure (domain_name_address raw port)) cursor
      else fail (error general_failure "Invalid address encoding") cursor

  unfoldable pub read_domain_name : Exec Reader Error Address
  unfolding fetch decode_domain
  read_domain_name = do
    length_buf ← fetch 1
    len ← index length_buf 0
    buf ← fetch (len + 2)
    run_on buf (do raw ← total (take_collect len); decode_domain raw)

  -- The `match` on the type of the address.
  unfoldable pub read_typed : ℕ → Exec Reader Error Address
  unfolding read_ipv4 read_ipv6 read_domain_name
  read_typed addr_type r =
      if addr_type == socks5_addr_type_ipv4
      then read_ipv4 r
      else if addr_type == socks5_addr_type_ipv6
      then read_ipv6 r
      else if addr_type == socks5_addr_type_domain_name
      then read_domain_name r
      else fail (error address_type_not_supported "Not supported address type") r

  unfoldable pub read_from : Exec Reader Error Address
  unfolding fetch read_typed
  read_from = do addr_type_buf ← fetch 1; addr_type ← index addr_type_buf 0; read_typed addr_type

  unfoldable pub write_ipv4_address : SocketAddrV4 → Exec BytesMut Never Unit
  write_ipv4_address a = do
    put_u8 socks5_addr_type_ipv4
    put_slice (octets_v4 a.ip)
    put_u16_be a.port

  -- `for seg in segments`
  unfoldable pub put_segments : List ℕ → Exec BytesMut Never Unit
  put_segments [] = pure tt
  put_segments (seg ∷ segs) = do put_u16_be seg; put_segments segs

  unfoldable pub write_ipv6_address : SocketAddrV6 → Exec BytesMut Never Unit
  unfolding put_segments
  write_ipv6_address a = do
    put_u8 socks5_addr_type_ipv6
    put_segments (segments a.ip)
    put_u16_be a.port

  -- The assertion on the length comes first; `as u8` wraps.
  unfoldable pub write_domain_name_address : List ℕ → ℕ → Exec BytesMut Never Unit
  write_domain_name_address name port buf =
      if leb (length name) 255
      then (do
        put_u8 socks5_addr_type_domain_name
        put_u8 (length name)
        put_slice name
        put_u16_be port)
          buf
      else panic buf

  unfoldable pub write_socket_address : SocketAddr → Exec BytesMut Never Unit
  unfolding write_ipv4_address write_ipv6_address
  write_socket_address (v4 a) = write_ipv4_address a
  write_socket_address (v6 a) = write_ipv6_address a

  unfoldable pub write_address : Address → Exec BytesMut Never Unit
  unfolding write_socket_address write_domain_name_address
  write_address (socket_address a) = write_socket_address a
  write_address (domain_name_address name port) = write_domain_name_address name port

  unfoldable pub write_to_buf : Address → Exec BytesMut Never Unit
  unfolding write_address
  write_to_buf a = write_address a

  -- Fill a buffer made for `n` bytes, and write what it holds: `write_to` of every packet.
  unfoldable pub write_packet : ℕ → Exec BytesMut Never Unit → Exec Writer IoError Unit
  write_packet n fill = do
    buf ← run_on (with_capacity n) (total (do fill; λ b. (pure b.filled b)))
    write_all buf

  unfoldable pub write_to : Address → Exec Writer IoError Unit
  unfolding write_packet write_to_buf serialized_len
  write_to a = write_packet (serialized_len a) (write_to_buf a)
