-- ===== src/Tuntap/SockAddr.antt =====
-- platform/posix/sockaddr.rs: IPv4 addresses as the system's `sockaddr`, on a little-endian machine.
pub mod RoundTrip
use tache_rs.Prelude.{
  ℕ, ◌+◌, ◌*◌, ◌/◌, ◌%◌, List, [], ◌∷◌, ◌++◌, take, drop, replicate, Bool, not, ◌==◌, if◌then◌else◌,
}
use tache_rs.Std.Exec.{Outcome, ok, err}
use tache_rs.Std.Net.{Ipv4Addr}
use tache_rs.Tuntap.Error.{Error, invalid_address}

-- `libc::sockaddr`: 14 bytes behind the family.
pub record Sockaddr : Type 0 where
  pub sa_family : ℕ
  pub sa_data : List ℕ

-- `SockAddr`, a wrapper for `libc::sockaddr_in`. The numbers are read as the machine reads them.
pub record SockAddr : Type 0 where
  pub sin_family : ℕ
  pub sin_port : ℕ
  pub s_addr : ℕ
  pub sin_zero : List ℕ

abbrev pub af_inet : ℕ
af_inet = 2

-- A number in memory, low byte first.
abbrev pub from_le : List ℕ → ℕ
from_le [] = 0
from_le (x ∷ xs) = x + 256 * from_le xs

abbrev pub u16_le : ℕ → List ℕ
u16_le n = (n % 256) ∷ (n / 256 % 256) ∷ []

abbrev pub u32_le : ℕ → List ℕ
u32_le n = (n % 256) ∷ (n / 256 % 256) ∷ (n / 0x10000 % 256) ∷ (n / 0x1000000 % 256) ∷ []

-- `unchecked`: the same memory, read as the other type.
unfoldable pub unchecked : Sockaddr → SockAddr
unchecked value = record {
  sin_family = value.sa_family;
  sin_port = from_le (take 2 value.sa_data);
  s_addr = from_le (take 4 (drop 2 value.sa_data));
  sin_zero = drop 6 value.sa_data;
}

-- `SockAddr::new`
unfoldable pub new : Sockaddr → Outcome Error SockAddr
unfolding unchecked
new value = if not (value.sa_family == af_inet) then err invalid_address else ok (unchecked value)

-- `From<Ipv4Addr>`. The four octets are shifted to places of their own, so `|` adds them.
unfoldable pub from_ipv4 : Ipv4Addr → SockAddr
from_ipv4 ip = record {
  sin_family = af_inet;
  sin_port = 0;
  s_addr = ip.d * 0x1000000 + ip.c * 0x10000 + ip.b * 0x100 + ip.a;
  sin_zero = replicate 8 0;
}

-- `Into<Ipv4Addr>`: `>>` and `& 0xff`.
unfoldable pub into_ipv4 : SockAddr → Ipv4Addr
into_ipv4 addr = record {
  a = addr.s_addr % 256;
  b = addr.s_addr / 0x100 % 256;
  c = addr.s_addr / 0x10000 % 256;
  d = addr.s_addr / 0x1000000 % 256;
}

-- `Into<sockaddr>`
unfoldable pub into_sockaddr : SockAddr → Sockaddr
into_sockaddr addr = record {
  sa_family = addr.sin_family;
  sa_data = u16_le addr.sin_port ++ u32_le addr.s_addr ++ addr.sin_zero;
}
