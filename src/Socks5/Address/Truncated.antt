-- ===== src/Socks5/Address/Truncated.antt =====
-- `Address::read_from` on a stream that ends inside an address.
use tache_rs.Prelude.{
  ℕ, ◌+◌, ◌<◌, ◌≡◌, refl, ap, List, [], ◌∷◌, ◌++◌, length, length-append, Option, split_at_short,
  arith,
}
use tache_rs.Std.Exec.{err}
use tache_rs.Std.Io.{IoError, stream_end}
use tache_rs.Std.Net.{v4, v6}
use tache_rs.Crates.Async.{AsyncCrates, IsDocumented, reference, by_reference}
use tache_rs.Socks5.Error.{from_io}
use tache_rs.Socks5.Address.{Address, socket_address, domain_name_address, read_from}
use tache_rs.Socks5.Address.Wire.{wire, port_bytes}
use tache_rs.Socks5.Address.Read.{stream}

-- The front of a split list is shorter than the list.
front_shorter : (bs front back : List ℕ) (x : ℕ) → bs ≡ front ++ x ∷ back → length front < length bs
front_shorter bs front back x e = omega (arith, ap length e, length-append front (x ∷ back))

module _ (spare : ℕ → ℕ) (fault : Option IoError) where
  truncated_reference :
      (a : Address) (front back : List ℕ) (x : ℕ)
      → wire a ≡ front ++ x ∷ back
      → read_from (reference spare) (stream front fault)
        ≡ (err (from_io (stream_end fault)), stream [] fault)
  unfolding read_from wire
  truncated_reference (socket_address (v4 a)) [] back x e = refl
  truncated_reference (socket_address (v4 a)) (t ∷ f) back x e =
      let e1 : t ≡ 1 = cc in
      let short : length f < 6 =
        omega (arith, front_shorter (wire (socket_address (v4 a))) (t ∷ f) back x e) in
      rw (e1, split_at_short 6 f short) refl
  truncated_reference (socket_address (v6 a)) [] back x e = refl
  truncated_reference (socket_address (v6 a)) (t ∷ f) back x e =
      let e1 : t ≡ 4 = cc in
      let short : length f < 18 =
        omega (arith, front_shorter (wire (socket_address (v6 a))) (t ∷ f) back x e) in
      rw (e1, split_at_short 18 f short) refl
  truncated_reference (domain_name_address name port) [] back x e = refl
  truncated_reference (domain_name_address name port) (t ∷ []) back x e =
      let e1 : t ≡ 3 = cc in rw e1
  truncated_reference (domain_name_address name port) (t ∷ l ∷ f) back x e =
      let e1 : t ≡ 3 = cc in
      let e2 : l ≡ length name = cc in
      let short : length f < length name + 2 = omega (
        arith,
        front_shorter (wire (domain_name_address name port)) (t ∷ l ∷ f) back x e,
        length-append name (port_bytes port),
      ) in
      rw (e1, e2, split_at_short (length name + 2) f short) refl

-- A stream that ends, or breaks, anywhere inside the wire format of an address gives a general
-- failure with the message of the stream's error, and all that had arrived is used up. The
-- functions of the crates do what is documented.
pub read_from_truncated :
    (crates : AsyncCrates)
    → IsDocumented crates
    → (a : Address) (front back : List ℕ) (x : ℕ) (fault : Option IoError)
    → wire a ≡ front ++ x ∷ back
    → read_from crates (stream front fault) ≡ (err (from_io (stream_end fault)), stream [] fault)
read_from_truncated crates documented a front back x fault e =
    by_reference
      (λ c. read_from c (stream front fault) ≡ (err (from_io (stream_end fault)), stream [] fault))
      crates documented λ spare. truncated_reference spare fault a front back x e
