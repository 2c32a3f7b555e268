-- ===== src/V5/Datagram/Listen.antt =====
-- protocol/socks/v5.rs: `Socks5Listener`, which waits for the second response.
use tache_rs.Prelude.{ℕ, ◌≡◌, refl, List, ◌++◌}
use tache_rs.Std.Exec.{ok}
use tache_rs.Crates.ByteOrder.{ByteOrder, IsDocumented}
use tache_rs.Utils.{Address}
use tache_rs.V5.Format.{IsTarget, received}
use tache_rs.V5.Response.{success, response-Reads, response_success}
use tache_rs.V5.Client.{Socks5Stream}
use tache_rs.V5.Datagram.{accept}

-- A second response of success with a valid address makes the address of the peer that of the
-- stream; nothing is sent, and the stream keeps a suffix of the bytes behind the response. The
-- functions of the crates do what is documented.
pub accept_lem :
    (k : ByteOrder)
    → IsDocumented k
    → (s : Socks5Stream) (peer : Address) (rest : List ℕ) → IsTarget peer
    → s.socket.input.bytes ≡ success peer ++ rest
    → ((accept k s).0 ≡ ok tt)
      × ((accept k s).1.proxy_addr ≡ received peer)
      × ((accept k s).1.socket.output ≡ s.socket.output)
      × ((lost : List ℕ) × (lost ++ (accept k s).1.socket.input.bytes ≡ rest))
unfolding accept
accept_lem k documented s peer rest h e =
    let r = response_success k documented peer rest s.socket h e in
    rw r.0 (refl, refl, (response-Reads k documented s.socket).sent, r.1)
