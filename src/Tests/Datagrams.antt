-- ===== src/Tests/Datagrams.antt =====
-- protocol/socks/socks5.rs: the headers of datagrams.
use tache_rs.Prelude.{ℕ, ◌≡◌, List, [], ◌∷◌, ◌++◌, none}
use tache_rs.Std.Exec.{ok}
use tache_rs.Std.Io
use tache_rs.Samples.{crates, crates-IsDocumented, site, site-IsAddress, sink}
use tache_rs.Socks5.Address.Wire.{carried}
use tache_rs.Socks5.Address.Read.{stream}
use tache_rs.Socks5.UdpAssociate.{UdpAssociateHeader, read_from, write_to}
use tache_rs.Socks5.UdpAssociate.RoundTrip.{packet, udp_round_trip}

abbrev second_fragment : UdpAssociateHeader
second_fragment = record { frag = 2; address = site }

udp_round_trip_example :
    (write_to crates second_fragment sink ≡ Io.write_all (packet second_fragment) sink)
    × (read_from crates (stream (packet second_fragment ++ 7 ∷ []) none)
        ≡ (ok (record second_fragment { address = carried site }), stream (7 ∷ []) none))
udp_round_trip_example =
    udp_round_trip crates crates-IsDocumented second_fragment sink (7 ∷ []) none site-IsAddress

abbrev cut_short : List ℕ
cut_short = 0 ∷ 0 ∷ []
