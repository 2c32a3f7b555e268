-- ===== src/Samples.antt =====
-- Addresses and streams on which the tests run the code.
use tache_rs.Prelude.{ℕ, List, [], refl, arith, none}
use tache_rs.Std.Io.{Writer}
use tache_rs.Std.Net.{Ipv4Addr, v4}
use tache_rs.Std.Text.{text}
use tache_rs.Std.Utf8.{is_utf8}
use tache_rs.Crates.Async.{AsyncCrates, IsDocumented, reference, reference-IsDocumented}
use tache_rs.Utils
use tache_rs.Utils.{DomainName}
use tache_rs.Socks5.Address.{Address, socket_address, domain_name_address}
use tache_rs.Socks5.Address.Wire.{IsAddress}

abbrev pub crates : AsyncCrates
crates = reference (λ n. 0)

pub crates-IsDocumented : IsDocumented crates
crates-IsDocumented = reference-IsDocumented (λ n. 0)

abbrev pub loopback : Ipv4Addr
loopback = record { a = 127; b = 0; c = 0; d = 1 }

abbrev pub local_address : Address
local_address = socket_address (v4 (record { ip = loopback; port = 1080 }))

pub local_address-IsAddress : IsAddress local_address
local_address-IsAddress = omega arith

abbrev pub host : List ℕ
host = text "a.io"

abbrev pub site : Address
site = domain_name_address host 443

pub site-IsAddress : IsAddress site
unfolding is_utf8
site-IsAddress = (refl, omega arith, omega arith, omega arith)

abbrev pub local_target : Utils.Address
local_target = Utils.socket_addr (v4 (record { ip = loopback; port = 1080 }))

abbrev pub site_domain : DomainName
site_domain = record { name = host; port = 443 }

abbrev pub site_target : Utils.Address
site_target = Utils.domain_name site_domain

-- A sink that takes everything.
abbrev pub sink : Writer
sink = record { written = []; refuses = λ _. none }
