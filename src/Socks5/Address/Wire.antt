-- ===== src/Socks5/Address/Wire.antt =====
-- The address format of RFC 1928, section 5, as a function from addresses to bytes.
use tache_rs.Prelude.{ℕ, ◌/◌, ◌%◌, ◌≤◌, List, [], ◌∷◌, ◌++◌, length, All}
use tache_rs.Std.Net.{
  IsByte, IsU16, IsSocketAddr, v4, v6, octets_v4, segments, split_words, on_wire,
}
use tache_rs.Std.Utf8.{IsUtf8}
use tache_rs.Socks5.Address.{Address, socket_address, domain_name_address}

abbrev pub port_bytes : ℕ → List ℕ
port_bytes p = (p / 256) ∷ (p % 256) ∷ []

unfoldable pub wire : Address → List ℕ
wire (socket_address (v4 a)) = 1 ∷ octets_v4 a.ip ++ port_bytes a.port
wire (socket_address (v6 a)) = 4 ∷ split_words (segments a.ip) ++ port_bytes a.port
wire (domain_name_address name port) = 3 ∷ length name ∷ name ++ port_bytes port

-- What the Rust types promise, and that the name fits the length byte.
abbrev pub IsAddress : Address → Type 0
IsAddress (socket_address a) = IsSocketAddr a
IsAddress (domain_name_address name port) =
    IsUtf8 name × All IsByte name × (length name ≤ 255) × IsU16 port

-- What the format carries of an address: all but the flow label and the scope of IPv6.
abbrev pub carried : Address → Address
carried (socket_address a) = socket_address (on_wire a)
carried (domain_name_address name port) = domain_name_address name port
