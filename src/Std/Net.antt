-- ===== src/Std/Net.antt =====
-- `std::net`: addresses. An octet is a number below 2 ^ 8, a port or a segment one below 2 ^ 16.
use tache_rs.Prelude.{ℕ, ◌<◌, ◌+◌, ◌*◌, ◌/◌, ◌%◌, Option, none, some, List, [], ◌∷◌, All}

pub record Ipv4Addr : Type 0 where
  pub a : ℕ
  pub b : ℕ
  pub c : ℕ
  pub d : ℕ

-- Eight segments of 16 bits.
pub record Ipv6Addr : Type 0 where
  pub a : ℕ
  pub b : ℕ
  pub c : ℕ
  pub d : ℕ
  pub e : ℕ
  pub f : ℕ
  pub g : ℕ
  pub h : ℕ

pub record SocketAddrV4 : Type 0 where
  pub ip : Ipv4Addr
  pub port : ℕ

pub record SocketAddrV6 : Type 0 where
  pub ip : Ipv6Addr
  pub port : ℕ
  pub flowinfo : ℕ
  pub scope_id : ℕ

pub data SocketAddr : Type 0 where
  v4 : SocketAddrV4 → SocketAddr
  v6 : SocketAddrV6 → SocketAddr

abbrev pub IsByte : ℕ → Type 0
IsByte n = n < 256

abbrev pub IsU16 : ℕ → Type 0
IsU16 n = n < 65536

-- `Ipv4Addr::octets`, `Ipv6Addr::segments`
abbrev pub octets_v4 : Ipv4Addr → List ℕ
octets_v4 ip = ip.a ∷ ip.b ∷ ip.c ∷ ip.d ∷ []

abbrev pub segments : Ipv6Addr → List ℕ
segments ip = ip.a ∷ ip.b ∷ ip.c ∷ ip.d ∷ ip.e ∷ ip.f ∷ ip.g ∷ ip.h ∷ []

-- The octets of the segments, high one first.
abbrev pub split_words : List ℕ → List ℕ
split_words [] = []
split_words (n ∷ ns) = (n / 256) ∷ (n % 256) ∷ split_words ns

-- `Ipv6Addr::octets`
abbrev pub octets_v6 : Ipv6Addr → List ℕ
octets_v6 ip = split_words (segments ip)

-- What the machine types promise of an address.
abbrev pub IsSocketAddr : SocketAddr → Type 0
IsSocketAddr (v4 s) = All IsByte (octets_v4 s.ip) × IsU16 s.port
IsSocketAddr (v6 s) = All IsU16 (segments s.ip) × IsU16 s.port

-- An address without the flow label and the scope, which are not part of the wire format.
abbrev pub on_wire : SocketAddr → SocketAddr
on_wire (v4 s) = v4 s
on_wire (v6 s) = v6 (record s { flowinfo = 0; scope_id = 0 })

-- `Ipv4Addr::from(u32)` and the way back.
abbrev pub ipv4_from_u32 : ℕ → Ipv4Addr
ipv4_from_u32 n = record {
  a = n / 0x1000000 % 256;
  b = n / 0x10000 % 256;
  c = n / 256 % 256;
  d = n % 256;
}

abbrev pub u32_from_ipv4 : Ipv4Addr → ℕ
u32_from_ipv4 ip = ((ip.a * 256 + ip.b) * 256 + ip.c) * 256 + ip.d

-- `Ipv6Addr::from([u8; 16])`
abbrev pub ipv6_from_octets : List ℕ → Option Ipv6Addr
ipv6_from_octets (a ∷ a' ∷ b ∷ b' ∷ c ∷ c' ∷ d ∷ d' ∷ e ∷ e' ∷ f ∷ f' ∷ g ∷ g' ∷ h ∷ h' ∷ []) =
    some (record {
      a = a * 256 + a';
      b = b * 256 + b';
      c = c * 256 + c';
      d = d * 256 + d';
      e = e * 256 + e';
      f = f * 256 + f';
      g = g * 256 + g';
      h = h * 256 + h';
    })
ipv6_from_octets _ = none
