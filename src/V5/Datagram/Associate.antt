-- ===== src/V5/Datagram/Associate.antt =====
-- protocol/socks/v5.rs: `Socks5Datagram::bind`, from the request to the connected socket.
use tache_rs.Prelude.{ℕ, ◌≡◌, refl, arith, List, [], ◌∷◌, ◌++◌, Option}
use tache_rs.Std.Exec.{Outcome, ok}
use tache_rs.Std.Io.{IoError}
use tache_rs.Crates.ByteOrder.{ByteOrder, IsDocumented}
use tache_rs.Utils.{Address}
use tache_rs.V5.Format.{IsTarget, received}
use tache_rs.V5.Response.{success}
use tache_rs.V5.Client.{Authentication, Socks5Stream, connect_raw, negotiate}
use tache_rs.V5.Client.Packets.{request_packet}
use tache_rs.V5.Client.Negotiate.{first_packet, proxy, negotiate_no_auth}
use tache_rs.V5.Datagram.{UdpSocket, Socks5Datagram, unspecified, bind_internal}

-- What the call returns: the socket as `connect` made it, and the stream to the proxy, which has
-- the address of the proxy's socket and over which `sent` went.
pub record Associated (result : Outcome IoError Socks5Datagram) (socket : UdpSocket)
    (relay : Address) (sent : List ℕ) : Type 0 where
  pub stream : Socks5Stream
  pub returned : result ≡ ok (record { socket = socket; stream = stream })
  pub address : stream.proxy_addr ≡ relay
  pub sends : stream.socket.output.written ≡ sent

-- The proxy takes what is sent, chooses no authentication, and responds with success and a
-- valid address. Then the association is asked for from 0.0.0.0:0, the socket is connected to
-- the address of the response, and both are returned. The functions of the crates do what is
-- documented.
pub bind_internal_lem :
    (k : ByteOrder)
    → IsDocumented k
    → (fault : Option IoError) (burst : ℕ → ℕ) (relay : Address) (auth : Authentication)
      (rest : List ℕ) (bound after : UdpSocket)
      (connect : Address → UdpSocket → Outcome IoError UdpSocket)
    → IsTarget relay
    → connect (received relay) bound ≡ ok after
    → Associated
        (bind_internal k
          (ok (proxy fault burst (5 ∷ 0 ∷ success relay ++ rest) []))
          (ok bound)
          connect
          auth)
        after
        (received relay)
        (first_packet auth ++ request_packet 3 unspecified)
unfolding bind_internal connect_raw
bind_internal_lem k documented fault burst relay auth rest bound after connect h done =
    let r =
      negotiate_no_auth fault burst k documented 3 unspecified relay auth rest [] (omega arith) h in
    record {
      stream = record {
        socket =
            (negotiate k 3 unspecified auth
              (proxy fault burst (5 ∷ 0 ∷ success relay ++ rest) [])).1;
        proxy_addr = received relay;
      };
      returned = rw (r.address, done) refl;
      address = refl;
      sends = r.sends;
    }
