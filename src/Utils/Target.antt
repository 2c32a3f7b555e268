-- ===== src/Utils/Target.antt =====
-- utils.rs: the address of a target as text, and the socket addresses that it stands for.
-- `SocketAddr`'s own parser and the name resolution of the system are parameters.
pub mod Iterate
use tache_rs.Prelude.{ℕ, List, [], ◌∷◌, Option, none, some}
use tache_rs.Std.Exec.{Outcome, ok, err, panicked}
use tache_rs.Std.Io.{IoError}
use tache_rs.Std.Net.{SocketAddr, v4, v6}
use tache_rs.Std.Parse.{split_once, parse_u16}
use tache_rs.Utils.{Address, DomainName, socket_addr, domain_name}

-- `Address::host`; the text of an IP address is that of the standard library.
unfoldable pub host : (SocketAddr → List ℕ) → Address → List ℕ
host ip_text (socket_addr s) = ip_text s
host ip_text (domain_name d) = d.name

pub data AddressError : Type 0 where
  address_error : AddressError

unfoldable pub port : Address → ℕ
port (socket_addr (v4 a)) = a.port
port (socket_addr (v6 a)) = a.port
port (domain_name d) = d.port

abbrev pub named : List ℕ → Option ℕ → Outcome AddressError Address
named dn none = err address_error
named dn (some port) = ok (domain_name (record { name = dn; port = port }))

abbrev pub pieces : List ℕ × Option (List ℕ) → Outcome AddressError Address
pieces (dn, none) = err address_error
pieces (dn, some rest) = named dn (parse_u16 (split_once b':' rest).0)

abbrev pub or_name : Option SocketAddr → List ℕ → Outcome AddressError Address
or_name (some addr) s = ok (socket_addr addr)
or_name none s = pieces (split_once b':' s)

-- A text that is not a socket address is read as a name.
unfoldable pub from_str : (List ℕ → Option SocketAddr) → List ℕ → Outcome AddressError Address
from_str parse_socket_addr s = or_name (parse_socket_addr s) s

pub data Iter : Type 0 where
  one_addr : Option SocketAddr → Iter
  resolved : List SocketAddr → Iter

abbrev pub iterate : Outcome IoError (List SocketAddr) → Outcome IoError Iter
iterate (ok addrs) = ok (resolved addrs)
iterate (err e) = err e
iterate panicked = panicked

unfoldable pub to_socket_addrs :
    (List ℕ → ℕ → Outcome IoError (List SocketAddr)) → Address → Outcome IoError Iter
to_socket_addrs resolve (socket_addr addr) = ok (one_addr (some addr))
to_socket_addrs resolve (domain_name d) = iterate (resolve d.name d.port)

-- `addr.take()`, and the next of the resolved ones.
unfoldable pub next : Iter → Option SocketAddr × Iter
next (one_addr addr) = (addr, one_addr none)
next (resolved []) = (none, resolved [])
next (resolved (addr ∷ addrs)) = (some addr, resolved addrs)
