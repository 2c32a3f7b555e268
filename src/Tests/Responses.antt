-- ===== src/Tests/Responses.antt =====
-- protocol/socks/socks5.rs: responses.
use tache_rs.Prelude.{ℕ, ◌≡◌, arith, List, [], ◌∷◌, ◌++◌, none}
use tache_rs.Std.Exec.{ok}
use tache_rs.Std.Io
use tache_rs.Samples.{crates, crates-IsDocumented, site, site-IsAddress, sink}
use tache_rs.Socks5.Reply.{other_reply}
use tache_rs.Socks5.Address.Wire.{carried}
use tache_rs.Socks5.Address.Read.{stream}
use tache_rs.Socks5.TcpResponse.{TcpResponseHeader, read_from, write_to}
use tache_rs.Socks5.TcpResponse.RoundTrip.{packet, response_round_trip}
use tache_rs.Socks5.TcpResponse.Sound.{Accepts, response-Accepts}

abbrev bound_site : TcpResponseHeader
bound_site = record { reply = other_reply 77; address = site }

response_round_trip_example :
    (write_to crates bound_site sink ≡ Io.write_all (packet bound_site) sink)
    × (read_from crates (stream (packet bound_site ++ 7 ∷ []) none)
        ≡ (ok (record bound_site { address = carried site }), stream (7 ∷ []) none))
response_round_trip_example =
    response_round_trip crates crates-IsDocumented bound_site sink (7 ∷ []) none (omega arith)
      site-IsAddress

abbrev unknown_type : List ℕ
unknown_type = 5 ∷ 0 ∷ 0 ∷ 2 ∷ []

response-Accepts_example :
    Accepts (stream unknown_type none) (read_from crates (stream unknown_type none))
response-Accepts_example =
    response-Accepts crates crates-IsDocumented unknown_type none (omega arith)
