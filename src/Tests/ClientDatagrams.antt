-- ===== src/Tests/ClientDatagrams.antt =====
-- protocol/socks/v5.rs: the datagrams of the client.
use tache_rs.Prelude.{ℕ, ◌≡◌, refl, arith, List, [], ◌∷◌, ◌++◌, replicate, length, drop}
use tache_rs.Prelude.{none}
use tache_rs.Std.Exec.{Exec, Outcome, ok}
use tache_rs.Utils.{Address}
use tache_rs.V5.Response.{success}
use tache_rs.V5.Client.{Socks5Stream, password}
use tache_rs.V5.Client.Packets.{request_packet}
use tache_rs.V5.Client.Negotiate.{first_packet, proxy}
use tache_rs.V5.Datagram.Associate.{Associated, bind_internal_lem}
use tache_rs.Std.Io.{IoError}
use tache_rs.Crates.ByteOrder.{big_endian, big_endian-IsDocumented}
use tache_rs.Samples.{site_target, site-IsAddress}
use tache_rs.V5.Format.{received}
use tache_rs.V5.Datagram.{bind_internal, unspecified, UdpSocket, send_to, recv_from, delivered}
use tache_rs.V5.Datagram.Payload.{header_of, scatter, send_to_lem}
use tache_rs.V5.Datagram.Receive.{recv_fits}
use tache_rs.V5.Datagram.Overrun.{IsFault, recv_overruns}

abbrev quiet : UdpSocket
quiet = record { sent = [] }

-- A vectored write that takes all of it, and a vectored read that meets one datagram.
abbrev gather : List ℕ → List ℕ → Exec UdpSocket IoError ℕ
gather header buf s = (ok (length (header ++ buf)), record { sent = (header ++ buf) ∷ s.sent })

abbrev arrived : List ℕ → List ℕ → List ℕ → Exec UdpSocket IoError (ℕ × List ℕ × List ℕ)
arrived d header buf s = (ok (scatter d header buf), s)

abbrev payload : List ℕ
payload = 1 ∷ 2 ∷ 3 ∷ []

send_to_lem_example :
    send_to big_endian gather payload (ok site_target) quiet
    ≡ gather (header_of site_target) payload quiet
send_to_lem_example =
    send_to_lem big_endian big_endian-IsDocumented gather payload site_target quiet site-IsAddress

recv_fits_example :
    recv_from big_endian (arrived (header_of site_target ++ payload)) (replicate 5 0) quiet
    ≡ delivered
        (length payload)
        (received site_target)
        (payload ++ drop (length payload) (replicate 5 0))
recv_fits_example =
    recv_fits big_endian big_endian-IsDocumented (arrived (header_of site_target ++ payload))
      site_target payload (replicate 5 0) quiet quiet site-IsAddress (omega arith) refl

recv_overruns_example :
    IsFault
      (recv_from big_endian (arrived (header_of site_target ++ payload)) (replicate 2 0) quiet)
recv_overruns_example =
    recv_overruns big_endian big_endian-IsDocumented (arrived (header_of site_target ++ payload))
      site_target payload (replicate 2 0) quiet quiet site-IsAddress (omega arith) refl

abbrev plugged : Address → UdpSocket → Outcome IoError UdpSocket
plugged a s = ok s

abbrev waiting : ℕ → ℕ
waiting n = 0

bind_internal_lem_example :
    Associated
      (bind_internal big_endian
        (ok (proxy none waiting (5 ∷ 0 ∷ success site_target ++ 8 ∷ []) []))
        (ok quiet)
        plugged
        (password (1 ∷ []) (2 ∷ [])))
      quiet
      (received site_target)
      (first_packet (password (1 ∷ []) (2 ∷ [])) ++ request_packet 3 unspecified)
bind_internal_lem_example =
    bind_internal_lem big_endian big_endian-IsDocumented none waiting site_target
      (password (1 ∷ []) (2 ∷ [])) (8 ∷ []) quiet quiet plugged site-IsAddress refl

abbrev listener : Socks5Stream
listener = record {
  socket = proxy none waiting (success site_target ++ 8 ∷ []) [];
  proxy_addr = unspecified;
}
