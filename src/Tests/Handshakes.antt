-- ===== src/Tests/Handshakes.antt =====
-- protocol/socks/socks5.rs: the two packets before the request.
use tache_rs.Prelude.{ℕ, ◌≡◌, ◌<◌, ◌%◌, arith, List, [], ◌∷◌, ◌++◌, none, length, replicate}
use tache_rs.Std.Exec.{ok}
use tache_rs.Std.Io
use tache_rs.Samples.{crates, crates-IsDocumented, sink}
use tache_rs.Socks5.Address.Read.{stream}
use tache_rs.Socks5.HandshakeRequest.{HandshakeRequest, read_from, write_to}
use tache_rs.Socks5.HandshakeRequest.RoundTrip.{packet, handshake_round_trip, handshake_wraps}
use tache_rs.Socks5.HandshakeResponse.{HandshakeResponse}

abbrev two_methods : HandshakeRequest
two_methods = record { methods = 0 ∷ 2 ∷ [] }

handshake_round_trip_example :
    (write_to crates two_methods sink ≡ Io.write_all (packet two_methods) sink)
    × (read_from crates (stream (packet two_methods ++ 7 ∷ []) none)
        ≡ (ok two_methods, stream (7 ∷ []) none))
handshake_round_trip_example =
    handshake_round_trip crates crates-IsDocumented two_methods sink (7 ∷ []) none (omega arith)

abbrev many_methods : HandshakeRequest
many_methods = record { methods = replicate 258 0 }

handshake_wraps_example :
    (sent : List ℕ) × (got : HandshakeRequest) × (left : List ℕ) × (write_to crates many_methods
        sink
      ≡ Io.write_all sent sink)
    × (read_from crates (stream (sent ++ 7 ∷ []) none) ≡ (ok got, stream (left ++ 7 ∷ []) none))
    × (got.methods ++ left ≡ many_methods.methods)
    × (length got.methods ≡ length many_methods.methods % 256)
    × (0 < length left)
handshake_wraps_example =
    handshake_wraps crates crates-IsDocumented many_methods sink (7 ∷ []) none (omega arith)

abbrev version_4 : List ℕ
version_4 = 4 ∷ 1 ∷ 0 ∷ []

abbrev chosen : HandshakeResponse
chosen = record { chosen_method = 2 }
