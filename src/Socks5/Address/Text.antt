-- ===== src/Socks5/Address/Text.antt =====
-- protocol/socks/socks5.rs: an address as text, from other types, and as the socket addresses that it
-- stands for. The text of a socket address and the resolver of the system are parameters.
use tache_rs.Prelude.{ℕ, List, [], ◌∷◌, ◌++◌}
use tache_rs.Std.Exec.{Outcome, ok}
use tache_rs.Std.Io.{IoError}
use tache_rs.Std.Net.{SocketAddr}
use tache_rs.Std.Text.{decimal}
use tache_rs.Socks5.Address.{Address, socket_address, domain_name_address}

-- `Display`, and `Debug`, which writes the same.
unfoldable pub display : (SocketAddr → List ℕ) → Address → List ℕ
unfolding decimal
display show (socket_address addr) = show addr
display show (domain_name_address addr port) = addr ++ b':' ∷ decimal port

unfoldable pub debug : (SocketAddr → List ℕ) → Address → List ℕ
unfolding decimal
debug show (socket_address addr) = show addr
debug show (domain_name_address addr port) = addr ++ b':' ∷ decimal port

unfoldable pub to_socket_addrs :
    (List ℕ → ℕ → Outcome IoError (List SocketAddr)) → Address → Outcome IoError (List SocketAddr)
to_socket_addrs resolve (socket_address addr) = ok (addr ∷ [])
to_socket_addrs resolve (domain_name_address addr port) = resolve addr port

-- `From<SocketAddr>` and `From<(String, u16)>`
abbrev pub from_socket_addr : SocketAddr → Address
from_socket_addr s = socket_address s

abbrev pub from_pair : List ℕ × ℕ → Address
from_pair (dn, port) = domain_name_address dn port
