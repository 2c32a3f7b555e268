-- ===== src/Tests/Requests.antt =====
-- protocol/socks/socks5.rs: requests.
use tache_rs.Prelude.{ℕ, ◌≡◌, arith, List, [], ◌∷◌, ◌++◌, none}
use tache_rs.Std.Exec.{ok}
use tache_rs.Std.Io
use tache_rs.Samples.{crates, crates-IsDocumented, site, site-IsAddress, sink}
use tache_rs.Socks5.Command.{tcp_connect}
use tache_rs.Socks5.Address.Wire.{carried}
use tache_rs.Socks5.Address.Read.{stream}
use tache_rs.Socks5.TcpRequest.{TcpRequestHeader, read_from, write_to}
use tache_rs.Socks5.TcpRequest.RoundTrip.{packet, request_round_trip}
use tache_rs.Socks5.TcpRequest.Sound.{Accepts, request-Accepts}

abbrev open_site : TcpRequestHeader
open_site = record { command = tcp_connect; address = site }

request_round_trip_example :
    (write_to crates open_site sink ≡ Io.write_all (packet open_site) sink)
    × (read_from crates (stream (packet open_site ++ 7 ∷ []) none)
        ≡ (ok (record open_site { address = carried site }), stream (7 ∷ []) none))
request_round_trip_example =
    request_round_trip crates crates-IsDocumented open_site sink (7 ∷ []) none site-IsAddress

abbrev unknown_command : List ℕ
unknown_command = 5 ∷ 9 ∷ 0 ∷ 1 ∷ []

request-Accepts_example :
    Accepts (stream unknown_command none) (read_from crates (stream unknown_command none))
request-Accepts_example =
    request-Accepts crates crates-IsDocumented unknown_command none (omega arith)
