-- ===== src/Socks5/TcpResponse/Sound.antt =====
-- `TcpResponseHeader::read_from` on any bytes: what it accepts, and why it refuses the rest.
use tache_rs.Prelude.{
  ℕ, ◌<◌, ◌≡◌, refl, List, ◌∷◌, ◌++◌, length, All, Option, Bool-cases, inl, inr, ◌==◌, arith, ◌≢◌,
}
use tache_rs.Std.Exec.{Outcome, ok, err, panicked, continue, pure}
use tache_rs.Std.Io.{Reader, IoError}
use tache_rs.Std.Net.{IsByte}
use tache_rs.Crates.Async.{AsyncCrates, IsDocumented, reference, by_reference}
use tache_rs.Socks5.Reply
use tache_rs.Socks5.Reply.{general_failure, connection_refused}
use tache_rs.Socks5.Error.{Error}
use tache_rs.Socks5.Address.{Address}
use tache_rs.Socks5.Address.Wire.{wire, IsAddress}
use tache_rs.Socks5.Address.Read.{stream}
use tache_rs.Socks5.Address.Sound.{IsReadError, ReadsBack, read_from-ReadsBack-reference}
use tache_rs.Socks5.TcpResponse.{TcpResponseHeader, read_from}

-- Why the bytes `bs` give the error `e`.
pub data Refusal (bs : List ℕ) (e : Error) : Type 0 where
  ends_early : length bs < 3 → e.reply ≡ general_failure → Refusal bs e
  bad_version :
      (v : ℕ) (rest : List ℕ) → bs ≡ v ∷ rest → v ≢ 5 → e.reply ≡ connection_refused → Refusal bs e
  bad_address :
      (c reserved : ℕ) (rest : List ℕ) → bs ≡ 5 ∷ c ∷ reserved ∷ rest → IsReadError e → Refusal bs e

-- The stream `r` has given the result: an accepted header was there byte for byte, but for the
-- reserved byte, which is not looked at.
abbrev pub Accepts : Reader → Outcome Error TcpResponseHeader × Reader → Type 0
Accepts r (ok h, r') =
    ((reserved : ℕ) × (r.bytes ≡ 5 ∷ Reply.as_u8 h.reply ∷ reserved ∷ wire h.address ++ r'.bytes))
    × IsAddress h.address
    × (r'.fault ≡ r.fault)
Accepts r (err e, r') = Refusal r.bytes e
Accepts r (panicked, r') = ⊥

module _ (bs : List ℕ) (fault : Option IoError) where
  with_address :
      (v c reserved : ℕ) (x : Outcome Error Address × Reader)
      → v ≡ 5
      → ReadsBack (stream bs fault) x
      → Accepts
          (stream (v ∷ c ∷ reserved ∷ bs) fault)
          (continue x (λ a. pure (record { reply = Reply.from_u8 c; address = a })))
  with_address v c reserved (ok a, r') ev (e, valid, same, end) =
      ((reserved, cc (ev, Reply.as_u8-from_u8 c, e)), valid, end)
  with_address v c reserved (err e, r') ev h = bad_address c reserved bs (cc) h
  with_address v c reserved (panicked, r') ev h = h

module _ (spare : ℕ → ℕ) (fault : Option IoError) where
  response-Accepts-reference :
      (bs : List ℕ)
      → All IsByte bs
      → Accepts (stream bs fault) (read_from (reference spare) (stream bs fault))
  unfolding read_from
  response-Accepts-reference (v ∷ c ∷ reserved ∷ bs) h = elim (Bool-cases (v == 5)) [
    | inr bad ↦ rw bad (bad_version v (c ∷ reserved ∷ bs) refl (ground arith) refl)
    | inl good ↦ rw good (
        with_address bs fault v c reserved _ (ground arith)
          (read_from-ReadsBack-reference spare fault bs h.1.1.1))
  ]
  response-Accepts-reference _ h = ends_early (omega arith) refl

-- Whatever bytes arrive, reading a response does not panic. A header that is returned was there
-- byte for byte (the reserved byte is not looked at), with a valid address; an error has its
-- reason in the bytes: fewer than three, another version, or an address that fails. The
-- functions of the crates do what is documented.
pub response-Accepts :
    (crates : AsyncCrates)
    → IsDocumented crates
    → (bs : List ℕ) (fault : Option IoError) → All IsByte bs
    → Accepts (stream bs fault) (read_from crates (stream bs fault))
response-Accepts crates documented bs fault h =
    by_reference (λ k. Accepts (stream bs fault) (read_from k (stream bs fault))) crates documented
      λ spare. response-Accepts-reference spare fault bs h
