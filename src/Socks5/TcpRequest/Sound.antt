-- ===== src/Socks5/TcpRequest/Sound.antt =====
-- `TcpRequestHeader::read_from` on any bytes: what it accepts, and why it refuses the rest.
use tache_rs.Prelude.{
  ℕ, ◌<◌, ◌≡◌, refl, List, ◌∷◌, ◌++◌, length, All, Option, none, some, Bool-cases, Option-cases,
  inl, inr, ◌==◌, ap, arith, ◌≢◌,
}
use tache_rs.Std.Exec.{Outcome, ok, err, panicked, continue, pure}
use tache_rs.Std.Io.{Reader, IoError}
use tache_rs.Std.Net.{IsByte}
use tache_rs.Crates.Async.{AsyncCrates, IsDocumented, reference, by_reference}
use tache_rs.Socks5.Command
use tache_rs.Socks5.Command.{Command}
use tache_rs.Socks5.Reply.{general_failure, connection_refused, command_not_supported}
use tache_rs.Socks5.Error.{Error}
use tache_rs.Socks5.Address.{Address}
use tache_rs.Socks5.Address.Wire.{wire, IsAddress}
use tache_rs.Socks5.Address.Read.{stream}
use tache_rs.Socks5.Address.Sound.{IsReadError, ReadsBack, read_from-ReadsBack-reference}
use tache_rs.Socks5.TcpRequest.{TcpRequestHeader, read_from}

-- Why the bytes `bs` give the error `e`.
pub data Refusal (bs : List ℕ) (e : Error) : Type 0 where
  ends_early : length bs < 3 → e.reply ≡ general_failure → Refusal bs e
  bad_version :
      (v : ℕ) (rest : List ℕ) → bs ≡ v ∷ rest → v ≢ 5 → e.reply ≡ connection_refused → Refusal bs e
  bad_command :
      (c : ℕ) (rest : List ℕ)
      → bs ≡ 5 ∷ c ∷ rest
      → Command.from_u8 c ≡ none
      → e.reply ≡ command_not_supported
      → Refusal bs e
  bad_address :
      (c reserved : ℕ) (command : Command) (rest : List ℕ)
      → bs ≡ 5 ∷ c ∷ reserved ∷ rest
      → Command.from_u8 c ≡ some command
      → IsReadError e
      → Refusal bs e

-- The stream `r` has given the result: an accepted header was there byte for byte, but for the
-- reserved byte, which is not looked at.
abbrev pub Accepts : Reader → Outcome Error TcpRequestHeader × Reader → Type 0
Accepts r (ok h, r') =
    ((reserved : ℕ) × (r.bytes
        ≡ 5 ∷ Command.as_u8 h.command ∷ reserved ∷ wire h.address ++ r'.bytes))
    × IsAddress h.address
    × (r'.fault ≡ r.fault)
Accepts r (err e, r') = Refusal r.bytes e
Accepts r (panicked, r') = ⊥

module _ (bs : List ℕ) (fault : Option IoError) where
  with_address :
      (v c reserved : ℕ) (command : Command) (x : Outcome Error Address × Reader)
      → v ≡ 5
      → Command.from_u8 c ≡ some command
      → ReadsBack (stream bs fault) x
      → Accepts
          (stream (v ∷ c ∷ reserved ∷ bs) fault)
          (continue x (λ a. pure (record { command = command; address = a })))
  with_address v c reserved command (ok a, r') ev ec (e, valid, same, end) =
      ((reserved, cc (ev, Command.as_u8-from_u8 c command ec, e)), valid, end)
  with_address v c reserved command (err e, r') ev ec h =
      bad_address c reserved command bs (cc) ec h
  with_address v c reserved command (panicked, r') ev ec h = h

module _ (spare : ℕ → ℕ) (fault : Option IoError) where
  request-Accepts-reference :
      (bs : List ℕ)
      → All IsByte bs
      → Accepts (stream bs fault) (read_from (reference spare) (stream bs fault))
  unfolding read_from
  request-Accepts-reference (v ∷ c ∷ reserved ∷ bs) h = elim (Bool-cases (v == 5)) [
    | inr bad ↦ rw bad (bad_version v (c ∷ reserved ∷ bs) refl (ground arith) refl)
    | inl good ↦ rw good (elim (Option-cases (Command.from_u8 c)) [
      | inl unknown ↦ rw unknown (
          bad_command c (reserved ∷ bs) (ap (λ (t : ℕ). t ∷ c ∷ reserved ∷ bs) (ground arith))
            unknown refl)
      | inr (command, known) ↦ rw known (
          with_address bs fault v c reserved command _ (ground arith) known
            (read_from-ReadsBack-reference spare fault bs h.1.1.1))
    ])
  ]
  request-Accepts-reference _ h = ends_early (omega arith) refl

-- Whatever bytes arrive, reading a request does not panic. A header that is returned was there
-- byte for byte (the reserved byte is not looked at), with a valid address; an error has its
-- reason in the bytes: fewer than three, another version, an unknown command, or an address
-- that fails. The functions of the crates do what is documented.
pub request-Accepts :
    (crates : AsyncCrates)
    → IsDocumented crates
    → (bs : List ℕ) (fault : Option IoError) → All IsByte bs
    → Accepts (stream bs fault) (read_from crates (stream bs fault))
request-Accepts crates documented bs fault h =
    by_reference (λ k. Accepts (stream bs fault) (read_from k (stream bs fault))) crates documented
      λ spare. request-Accepts-reference spare fault bs h
