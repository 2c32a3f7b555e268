-- ===== src/Socks5/Address/Read.antt =====
-- `Address::read_from` is the inverse of the wire format, in both directions.
use tache_rs.Prelude.{
  ℕ, ◌+◌, ◌*◌, ◌/◌, ◌%◌, ◌≡◌, refl, List, ◌++◌, length, length-append, arith, true, Option, some,
  split_at, split_at-append, take-append, drop-append,
}
use tache_rs.Std.Exec.{ok}
use tache_rs.Std.Io.{Reader, IoError}
use tache_rs.Std.Net.{v4, v6}
use tache_rs.Std.Utf8.{is_utf8}
use tache_rs.Crates.Async.{AsyncCrates, IsDocumented, reference, next_u8, next_u16, by_reference}
use tache_rs.Socks5.Address.{Address, socket_address, domain_name_address, decode_domain, read_from}
use tache_rs.Socks5.Address.Wire.{port_bytes, wire, IsAddress, carried}

abbrev pub stream : List ℕ → Option IoError → Reader
stream bytes fault = record { bytes = bytes; fault = fault }

rejoin : (n : ℕ) → n / 256 * 256 + n % 256 ≡ n
rejoin n = omega arith

module _ (spare : ℕ → ℕ) (rest : List ℕ) (fault : Option IoError) where
  decode_domain-wire :
      (name : List ℕ) (port : ℕ)
      → is_utf8 name ≡ true
      → (decode_domain (reference spare) name (port_bytes port)).0
        ≡ ok (domain_name_address name port)
  unfolding decode_domain next_u16
  decode_domain-wire name port h = rw (h, rejoin port)

  pub split_domain :
      (name : List ℕ) (port : ℕ)
      → split_at (length name + 2) (name ++ port_bytes port ++ rest)
        ≡ some (name ++ port_bytes port, rest)
  split_domain name port =
      let e : length name + 2 ≡ length (name ++ port_bytes port) =
        omega (arith, length-append name (port_bytes port)) in
      rw e (split_at-append (name ++ port_bytes port) rest)

  pub read_from-wire-reference :
      (a : Address)
      → IsAddress a
      → read_from (reference spare) (stream (wire a ++ rest) fault)
        ≡ (ok (carried a), stream rest fault)
  unfolding read_from next_u8 next_u16 wire
  read_from-wire-reference (socket_address (v4 a)) h = rw (rejoin a.port)
  read_from-wire-reference (socket_address (v6 a)) h = simp rejoin
  read_from-wire-reference (domain_name_address name port) h =
      rw
        (
          split_domain name port,
          take-append name (port_bytes port),
          drop-append name (port_bytes port),
        )
        (rw (decode_domain-wire name port h.0) refl)

-- The wire format of a valid address is read back, whatever follows it on the stream: the
-- address is the same, but for the flow label and the scope of IPv6, and the reading stops
-- where the rest begins. The functions of the crates do what is documented.
pub read_from-wire :
    (crates : AsyncCrates)
    → IsDocumented crates
    → (a : Address) (rest : List ℕ) (fault : Option IoError) → IsAddress a
    → read_from crates (stream (wire a ++ rest) fault) ≡ (ok (carried a), stream rest fault)
read_from-wire crates documented a rest fault h =
    by_reference
      (λ c. read_from c (stream (wire a ++ rest) fault) ≡ (ok (carried a), stream rest fault))
      crates documented λ spare. read_from-wire-reference spare rest fault a h
