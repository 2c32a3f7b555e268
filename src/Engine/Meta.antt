-- ===== src/Engine/Meta.antt =====
-- engine/mod.rs: `build_connection_meta`, and the name resolution of a text by the standard library.
use tache_rs.Prelude.{
  ℕ, ◌≡◌, ◌≢◌, refl, false, Option, none, some, List, [], ◌∷◌, ◌⊎◌, inl, inr, All, ◌++◌, ◌<◌, ◌++◌,
  ◌<◌,
}
use tache_rs.Std.Io.{IoError, io_error, invalid_input}
use tache_rs.Std.Net.{SocketAddr}
use tache_rs.Std.Parse.{
  rsplit_once, rsplit_once-none, rsplit_once-append, parse_u16, parse_u16-decimal,
}
use tache_rs.Std.Text.{decimal}
use tache_rs.Utils.Name.RoundTrip.{decimal-NoColon}
use tache_rs.Engine.{Error, ConnectionMeta}

-- The parser of socket addresses, and the system's resolver.
pub record Resolver : Type 0 where
  pub parse_socket_addr : List ℕ → Option SocketAddr
  pub lookup : List ℕ → ℕ → IoError ⊎ List SocketAddr

abbrev pub look_up : Resolver → List ℕ → Option ℕ → IoError ⊎ List SocketAddr
look_up r host none = inl (io_error invalid_input "invalid port value")
look_up r host (some port) = r.lookup host port

abbrev pub host_and_port : Resolver → Option (List ℕ × List ℕ) → IoError ⊎ List SocketAddr
host_and_port r none = inl (io_error invalid_input "invalid socket address")
host_and_port r (some (host, port)) = look_up r host (parse_u16 port)

abbrev pub addr_or_name : Resolver → Option SocketAddr → List ℕ → IoError ⊎ List SocketAddr
addr_or_name r (some addr) s = inr (addr ∷ [])
addr_or_name r none s = host_and_port r (rsplit_once b':' s)

-- `ToSocketAddrs for str`: a socket address, or a host, a colon and a port.
unfoldable pub to_socket_addrs : Resolver → List ℕ → IoError ⊎ List SocketAddr
unfolding rsplit_once parse_u16
to_socket_addrs r s = addr_or_name r (r.parse_socket_addr s) s

abbrev pub first : IoError ⊎ List SocketAddr → Option SocketAddr
first (inl e) = none
first (inr []) = none
first (inr (addr ∷ addrs)) = some addr

-- `stream.peer_addr()`
abbrev pub peer : IoError ⊎ SocketAddr → Option SocketAddr
peer (inl e) = none
peer (inr addr) = some addr

abbrev pub build_connection_meta :
    Resolver → IoError ⊎ SocketAddr → Option (List ℕ) → Error ⊎ ConnectionMeta
build_connection_meta r peer_addr none = inl (record { v = "not have host" })
build_connection_meta r peer_addr (some host) = inr (record {
  udp = false;
  host = host;
  src_addr = peer peer_addr;
  dst_addr = first (to_socket_addrs r host);
})

-- Of a request without a host there is no meta. A host that has no colon, as that of a URI, and
-- is not a socket address resolves to nothing, whatever the resolver knows; with a port behind
-- it, it would have the first address that the resolver finds.
pub build_connection_meta_lem :
    (r : Resolver) (peer_addr : IoError ⊎ SocketAddr) (name : List ℕ) (port : ℕ)
    → All (λ c. c ≢ b':') name
    → port < 65536
    → r.parse_socket_addr name ≡ none
    → r.parse_socket_addr (name ++ b':' ∷ decimal port) ≡ none
    → let with_port = name ++ b':' ∷ decimal port in
      (build_connection_meta r peer_addr none ≡ inl (record { v = "not have host" }))
      × (build_connection_meta r peer_addr (some name)
          ≡ inr (record { udp = false; host = name; src_addr = peer peer_addr; dst_addr = none }))
      × (build_connection_meta r peer_addr (some with_port)
          ≡ inr (record {
            udp = false;
            host = with_port;
            src_addr = peer peer_addr;
            dst_addr = first (r.lookup name port);
          }))
unfolding to_socket_addrs
build_connection_meta_lem r peer_addr name port plain small no_addr no_addr' = (
  refl,
  rw (no_addr, rsplit_once-none b':' name plain) refl,
  rw
      (
        no_addr',
        rsplit_once-append b':' name (decimal port) (decimal-NoColon port),
        parse_u16-decimal port small,
      )
      refl,
)
