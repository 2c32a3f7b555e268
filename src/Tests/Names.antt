-- ===== src/Tests/Names.antt =====
-- utils.rs: names as text, and the iterator over addresses.
use tache_rs.Prelude.{ℕ, ◌≡◌, refl, arith, List, [], ◌∷◌, ◌++◌, some}
use tache_rs.Std.Exec.{Outcome, ok}
use tache_rs.Std.Io.{IoError}
use tache_rs.Std.Net.{SocketAddr, v4}
use tache_rs.Std.Text.{text}
use tache_rs.Std.Parse.{split_once, parse_u16}
use tache_rs.Samples.{host, site_domain, loopback}
use tache_rs.Utils.{socket_addr, domain_name}
use tache_rs.Utils.Name.{
  from_str, display, serialize_text, visit_str, serialize_pair, deserialize_pair,
}
use tache_rs.Utils.Name.RoundTrip.{NoColon, name_round_trip}
use tache_rs.Utils.Target.{one_addr, resolved, to_socket_addrs}

host-NoColon : NoColon host
host-NoColon = (omega arith, (omega arith, (omega arith, (omega arith, tt))))

name_round_trip_example :
    (from_str (display site_domain) ≡ ok site_domain)
    × (from_str (display site_domain ++ b':' ∷ text "x") ≡ ok site_domain)
    × (visit_str (serialize_text site_domain) ≡ ok site_domain)
    × (deserialize_pair (serialize_pair site_domain) ≡ site_domain)
name_round_trip_example = name_round_trip site_domain (text "x") host-NoColon (omega arith)

two_colons : from_str (text "a.io:443:x") ≡ ok site_domain
unfolding from_str split_once parse_u16
two_colons = refl

abbrev socket : ℕ → SocketAddr
socket n = v4 (record { ip = loopback; port = n })

abbrev dns : List ℕ → ℕ → Outcome IoError (List SocketAddr)
dns name port = ok (socket port ∷ socket 8 ∷ [])

one_made : to_socket_addrs dns (socket_addr (socket 1)) ≡ ok (one_addr (some (socket 1)))
unfolding to_socket_addrs
one_made = refl

two_made :
    to_socket_addrs dns (domain_name site_domain) ≡ ok (resolved (socket 443 ∷ socket 8 ∷ []))
unfolding to_socket_addrs
two_made = refl
