-- ===== src/V5/Wire.antt =====
-- protocol/socks/v5.rs: addresses and responses on the wire.
use tache_rs.Prelude.{
  ℕ, ◌+◌, ◌-◌, Option, none, some, List, length, ltb, ◌==◌, if◌then◌else◌, String, not,
}
use tache_rs.Std.Exec.{Exec, ok, err, pure, fail, panic, ◌>>=◌, ◌>>◌, ensure, unwrap}
use tache_rs.Std.Io.{IoError, io_error, other, invalid_data, invalid_input, from_utf8_error}
use tache_rs.Std.Net.{
  SocketAddrV4, SocketAddrV6, v4, v6, ipv4_from_u32, u32_from_ipv4, ipv6_from_octets, octets_v6,
}
use tache_rs.Std.Utf8.{is_utf8}
use tache_rs.Std.Slice
use tache_rs.Std.Slice.{Slice}
use tache_rs.Std.Tcp.{TcpStream, with_capacity, read_buffered}
use tache_rs.Crates.ByteOrder.{ByteOrder, ReadExact}
use tache_rs.Utils.{Address, DomainName, socket_addr, domain_name}

abbrev pub max_addr_len : ℕ
max_addr_len = 260

-- The check of `String::from_utf8`, with its error made one of `io`.
unfoldable pub from_utf8 : {R : Type 0} → List ℕ → Exec R IoError (List ℕ)
from_utf8 bytes r =
    if is_utf8 bytes
    then (ok bytes, r)
    else (err (record { kind = invalid_data; payload = from_utf8_error bytes }), r)

abbrev pub some_or_panic {ℓ} : {S E A : Type ℓ} → Option A → Exec S E A
some_or_panic none = panic
some_or_panic (some a) = pure a

-- The reply codes of the server that the client tells apart.
unfoldable pub reply_message : ℕ → String
reply_message code =
    if code == 1
    then "general SOCKS server failure"
    else if code == 2
    then "connection not allowed by ruleset"
    else if code == 3
    then "network unreachable"
    else if code == 4
    then "host unreachable"
    else if code == 5
    then "connection refused"
    else if code == 6
    then "TTL expired"
    else if code == 7
    then "command not supported"
    else if code == 8
    then "address kind not supported"
    else "unknown error"

-- `read_addr` takes any reader: here it takes the method `read_exact` of the reader.
module _ (k : ByteOrder) {R : Type 0} (read_exact : ReadExact R) where
  unfoldable pub read_v4 : Exec R IoError Address
  read_v4 = do
    ip ← k.read_u32 R read_exact
    port ← k.read_u16 R read_exact
    pure (socket_addr (v4 (record { ip = ipv4_from_u32 ip; port = port })))

  unfoldable pub read_domain : Exec R IoError Address
  unfolding from_utf8
  read_domain = do
    len ← k.read_u8 R read_exact
    bytes ← read_exact len
    name ← from_utf8 bytes
    port ← k.read_u16 R read_exact
    pure (domain_name (record { name = name; port = port }))

  unfoldable pub read_v6 : Exec R IoError Address
  read_v6 = do
    bytes ← read_exact 16
    ip ← some_or_panic (ipv6_from_octets bytes)
    port ← k.read_u16 R read_exact
    pure (socket_addr (v6 (record { ip = ip; port = port; flowinfo = 0; scope_id = 0 })))

  unfoldable pub read_kind : ℕ → Exec R IoError Address
  unfolding read_v4 read_domain read_v6
  read_kind kind r =
      if kind == 1
      then read_v4 r
      else if kind == 3
      then read_domain r
      else if kind == 4
      then read_v6 r
      else fail (io_error other "unsupported address type") r

  unfoldable pub read_addr : Exec R IoError Address
  unfolding read_kind
  read_addr = do kind ← k.read_u8 R read_exact; read_kind kind

  -- `read_response` behind the construction of its buffered reader.
  unfoldable pub parse_response : Exec R IoError Address
  unfolding read_addr
  parse_response = do
    version ← k.read_u8 R read_exact
    ensure (version == 5) (io_error invalid_data "invalid response version")
    code ← k.read_u8 R read_exact
    ensure (code == 0) (io_error other (reply_message code))
    reserved ← k.read_u8 R read_exact
    ensure (reserved == 0) (io_error invalid_data "invalid reserved byte")
    read_addr

module _ (k : ByteOrder) where
  -- The buffered reader lives as long as the call; what it has read ahead goes with it.
  unfoldable pub read_response : Exec TcpStream IoError Address
  unfolding parse_response
  read_response t =
      let (result, b) = parse_response k read_buffered (with_capacity (max_addr_len + 3) t) in
      (result, b.inner)

  unfoldable pub write_v4 : SocketAddrV4 → Exec Slice IoError Unit
  write_v4 a = do
    unwrap (k.write_u8 Slice Slice.write_all 1)
    unwrap (k.write_u32 Slice Slice.write_all (u32_from_ipv4 a.ip))
    unwrap (k.write_u16 Slice Slice.write_all a.port)

  unfoldable pub write_v6 : SocketAddrV6 → Exec Slice IoError Unit
  write_v6 a = do
    unwrap (k.write_u8 Slice Slice.write_all 4)
    unwrap (Slice.write_all (octets_v6 a.ip))
    unwrap (k.write_u16 Slice Slice.write_all a.port)

  unfoldable pub write_domain : DomainName → Exec Slice IoError Unit
  write_domain d = do
    unwrap (k.write_u8 Slice Slice.write_all 3)
    ensure (not (ltb 255 (length d.name))) (io_error invalid_input "domain name too long")
    unwrap (k.write_u8 Slice Slice.write_all (length d.name))
    unwrap (Slice.write_all d.name)
    unwrap (k.write_u16 Slice Slice.write_all d.port)

  unfoldable pub write_target : Address → Exec Slice IoError Unit
  unfolding write_v4 write_v6 write_domain
  write_target (socket_addr (v4 a)) = write_v4 a
  write_target (socket_addr (v6 a)) = write_v6 a
  write_target (domain_name d) = write_domain d

  -- The number of bytes that the slice became shorter by.
  unfoldable pub write_addr : Address → Exec Slice IoError ℕ
  unfolding write_target
  write_addr target packet =
      (do write_target target; λ s. (ok (length packet.remaining - length s.remaining), s)) packet
