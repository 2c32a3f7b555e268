-- ===== src/V5/Format.antt =====
-- The wire format of an address of utils.rs: that of protocol/socks/socks5.rs.
use tache_rs.Prelude.{ℕ, List}
use tache_rs.Std.Net.{on_wire}
use tache_rs.Utils.{Address, socket_addr, domain_name}
use tache_rs.Socks5.Address
use tache_rs.Socks5.Address.{socket_address, domain_name_address}
use tache_rs.Socks5.Address.Wire.{wire, IsAddress}

-- The two address types of the program hold the same.
abbrev pub as_socks5 : Address → Address.Address
as_socks5 (socket_addr a) = socket_address a
as_socks5 (domain_name d) = domain_name_address d.name d.port

abbrev pub wire_of : Address → List ℕ
wire_of a = wire (as_socks5 a)

abbrev pub IsTarget : Address → Type 0
IsTarget a = IsAddress (as_socks5 a)

-- What the format carries of an address: all but the flow label and the scope of IPv6.
abbrev pub received : Address → Address
received (socket_addr a) = socket_addr (on_wire a)
received (domain_name d) = domain_name d
