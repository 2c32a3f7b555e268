-- ===== src/V5/Response.antt =====
-- `read_response` reads through a `BufReader` of its own.
pub mod Loss
pub mod Sound
use tache_rs.Prelude.{
  ℕ, zero, suc, ◌+◌, ◌≤◌, ◌<◌, ◌≡◌, ◌≢◌, refl, ap, sym, ◌∙◌, List, [], ◌∷◌, ◌++◌, length,
  append-nil, arith, Bool, true, false, Option, none, some, Bool-cases, inl, inr, ◌==◌,
  if◌then◌else◌, take, drop, min,
}
use tache_rs.Std.Exec.{Exec, Outcome, ok, err, panicked, pure, fail, ◌>>=◌, ensure}
use tache_rs.Std.Io
use tache_rs.Std.Io.{Reader, IoError, io_error, other, invalid_data}
use tache_rs.Std.Net.{Ipv6Addr, ipv6_from_octets}
use tache_rs.Std.Utf8.{is_utf8}
use tache_rs.Std.Tcp.{TcpStream, BufReader, with_capacity, read_buffered}
use tache_rs.Std.Tcp.Buffered.{
  flat, flatten, Same, Same-pure, Same-fail, Same-panic, Same-if, Same-ensure, Same-bind,
  read_buffered-Same,
}
use tache_rs.Crates.ByteOrder.{
  ByteOrder, IsDocumented, big_endian, by_big_endian, read_number, from_be,
}
use tache_rs.Utils.{Address}
use tache_rs.Socks5.Address.Read.{stream}
use tache_rs.V5.Format.{wire_of, IsTarget, received}
use tache_rs.V5.Wire.{
  from_utf8, some_or_panic, read_v4, read_v6, read_domain, read_kind, read_addr, parse_response,
  read_response, reply_message,
}
use tache_rs.V5.ReadAddr.{read_addr-wire}

number-Same :
    (n : ℕ) → Same (read_number BufReader read_buffered n) (read_number Reader Io.read_exact n)
number-Same n = Same-bind (λ bytes. Same-pure (from_be bytes)) (read_buffered-Same n)

from_utf8-Same : (bytes : List ℕ) → Same (from_utf8 bytes) (from_utf8 bytes)
unfolding from_utf8
from_utf8-Same bytes = Same-if (is_utf8 bytes) (Same-pure bytes) (Same-fail _)

some_or_panic-Same : {A : Type 0} (o : Option A) → Same (some_or_panic o) (some_or_panic o)
some_or_panic-Same none = Same-panic
some_or_panic-Same (some a) = Same-pure a

read_v4-Same : Same (read_v4 big_endian read_buffered) (read_v4 big_endian Io.read_exact)
unfolding read_v4
read_v4-Same = Same-bind (λ ip. Same-bind (λ port. Same-pure _) (number-Same 2)) (number-Same 4)

read_domain-Same :
    Same (read_domain big_endian read_buffered) (read_domain big_endian Io.read_exact)
unfolding read_domain
read_domain-Same =
    Same-bind
      (λ len.
        Same-bind
          (λ bytes.
            Same-bind (λ name. Same-bind (λ port. Same-pure _) (number-Same 2))
              (from_utf8-Same bytes))
          (read_buffered-Same len))
      (number-Same 1)

read_v6-Same : Same (read_v6 big_endian read_buffered) (read_v6 big_endian Io.read_exact)
unfolding read_v6
read_v6-Same =
    Same-bind
      (λ bytes.
        Same-bind (λ ip. Same-bind (λ port. Same-pure _) (number-Same 2))
          (some_or_panic-Same (ipv6_from_octets bytes)))
      (read_buffered-Same 16)

read_addr-Same : Same (read_addr big_endian read_buffered) (read_addr big_endian Io.read_exact)
unfolding read_addr
read_addr-Same =
    Same-bind
      (λ kind.
        Same-if (kind == 1) read_v4-Same
          (Same-if (kind == 3) read_domain-Same (Same-if (kind == 4) read_v6-Same (Same-fail _))))
      (number-Same 1)

pub parse_response-Same :
    Same (parse_response big_endian read_buffered) (parse_response big_endian Io.read_exact)
unfolding parse_response
parse_response-Same =
    Same-bind
      (λ version.
        Same-bind
          (λ _.
            Same-bind
              (λ code.
                Same-bind
                  (λ _.
                    Same-bind
                      (λ reserved. Same-bind (λ _. read_addr-Same) (Same-ensure (reserved == 0) _))
                      (number-Same 1))
                  (Same-ensure (code == 0) _))
              (number-Same 1))
          (Same-ensure (version == 5) _))
      (number-Same 1)

-- The response of RFC 1928, section 6, for success.
abbrev pub success : Address → List ℕ
success a = 5 ∷ 0 ∷ 0 ∷ wire_of a

parse_response-success :
    (a : Address) (rest : List ℕ) (fault : Option IoError)
    → IsTarget a
    → parse_response big_endian Io.read_exact (stream (success a ++ rest) fault)
      ≡ (ok (received a), stream rest fault)
unfolding parse_response
parse_response-success a rest fault h = read_addr-wire rest fault a h

-- The socket `t` after `read_response`, whose result agrees with reading `t`'s bytes one by one.
pub record Reads (t : TcpStream) (after : Outcome IoError Address × TcpStream) : Type 0 where
  pub result : after.0 ≡ (parse_response big_endian Io.read_exact t.input).0
  pub sent : after.1.output ≡ t.output
  -- What was read ahead and is gone.
  pub lost : List ℕ
  pub left : lost ++ after.1.input.bytes ≡ (parse_response big_endian Io.read_exact t.input).1.bytes

read_response-Reads : (t : TcpStream) → Reads t (read_response big_endian t)
unfolding read_response
read_response-Reads t =
    let b = with_capacity 263 t in
    let e = parse_response-Same.result b (omega arith) in
    record {
      result = ap (λ (p : Outcome IoError Address × Reader). p.0) e;
      sent = parse_response-Same.output b;
      lost = (parse_response big_endian read_buffered b).1.buffer;
      left = ap (λ (p : Outcome IoError Address × Reader). p.1.bytes) e;
    }

module _ (k : ByteOrder) (documented : IsDocumented k) where
  -- Whatever arrives and however it is cut, the result is that of reading the bytes one by one,
  -- nothing is sent, and what the socket still holds is the end of what that reading would
  -- leave. The functions of the crates do what is documented.
  pub response-Reads : (t : TcpStream) → Reads t (read_response k t)
  response-Reads t =
      by_big_endian (λ b. Reads t (read_response b t)) k documented (read_response-Reads t)

  -- A response of success with a valid address gives the address that it holds, and the socket
  -- keeps a suffix of the bytes behind it. The functions of the crates do what is documented.
  pub response_success :
      (a : Address) (rest : List ℕ) (t : TcpStream)
      → IsTarget a
      → t.input.bytes ≡ success a ++ rest
      → ((read_response k t).0 ≡ ok (received a))
        × ((lost : List ℕ) × (lost ++ (read_response k t).1.input.bytes ≡ rest))
  response_success a rest t h e =
      let r = response-Reads t in
      let whole : parse_response big_endian Io.read_exact t.input
          ≡ (ok (received a), stream rest t.input.fault) =
        rw e (parse_response-success a rest t.input.fault h) in
      (
        r.result ∙ ap (λ (p : Outcome IoError Address × Reader). p.0) whole,
        (r.lost, r.left ∙ ap (λ (p : Outcome IoError Address × Reader). p.1.bytes) whole),
      )
