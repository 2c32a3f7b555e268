-- ===== src/V5/ReadAddr.antt =====
-- `read_addr` reads back the wire format of an address, from any reader of bytes.
use tache_rs.Prelude.{
  ℕ, ◌+◌, ◌*◌, ◌/◌, ◌%◌, ◌<◌, ◌≡◌, refl, List, ◌++◌, append_assoc, Option, split_at-append, arith,
}
use tache_rs.Std.Exec.{ok}
use tache_rs.Std.Io
use tache_rs.Std.Io.{Reader, IoError}
use tache_rs.Std.Net.{v4, v6, ipv4_from_u32}
use tache_rs.Crates.ByteOrder.{big_endian}
use tache_rs.Utils.{Address, socket_addr, domain_name}
use tache_rs.Socks5.Address.Wire.{wire, port_bytes}
use tache_rs.Socks5.Address.Read.{stream}
use tache_rs.V5.Format.{wire_of, IsTarget, received}
use tache_rs.V5.Wire.{read_addr}

join : (n : ℕ) → n / 256 * 256 + n % 256 ≡ n
join n = omega arith

pub ipv4-octets :
    (a b c d : ℕ)
    → a < 256
    → b < 256
    → c < 256
    → d < 256
    → ipv4_from_u32 (((a * 256 + b) * 256 + c) * 256 + d) ≡ record { a = a; b = b; c = c; d = d }
ipv4-octets a b c d ha hb hc hd =
    let e0 : (((a * 256 + b) * 256 + c) * 256 + d) / 0x1000000 % 256 ≡ a = omega arith in
    let e1 : (((a * 256 + b) * 256 + c) * 256 + d) / 0x10000 % 256 ≡ b = omega arith in
    let e2 : (((a * 256 + b) * 256 + c) * 256 + d) / 256 % 256 ≡ c = omega arith in
    let e3 : (((a * 256 + b) * 256 + c) * 256 + d) % 256 ≡ d = omega arith in
    λ i. record { a = e0 i; b = e1 i; c = e2 i; d = e3 i }

module _ (rest : List ℕ) (fault : Option IoError) where
  pub read_addr-wire :
      (a : Address)
      → IsTarget a
      → read_addr big_endian Io.read_exact (stream (wire_of a ++ rest) fault)
        ≡ (ok (received a), stream rest fault)
  unfolding read_addr wire
  read_addr-wire (socket_addr (v4 a)) h =
      rw
        (
          ipv4-octets a.ip.a a.ip.b a.ip.c a.ip.d (omega arith) (omega arith) (omega arith)
              (omega arith),
          join a.port,
        )
        refl
  read_addr-wire (socket_addr (v6 a)) h = simp join
  read_addr-wire (domain_name d) h =
      rw
        (
          append_assoc d.name (port_bytes d.port) rest,
          split_at-append d.name (port_bytes d.port ++ rest),
          h.0,
          join d.port,
        )
        refl
