-- ===== src/Socks5/HandshakeRequest/Sound.antt =====
-- `HandshakeRequest`: what `read_from` accepts, and why it refuses the rest.
use tache_rs.Prelude.{
  ℕ, ◌<◌, ◌≡◌, ◌≢◌, refl, List, ◌∷◌, ◌++◌, length, take, length-take, split_at-cases,
  take-append-drop, Option, arith, Bool-cases, inl, inr, ◌==◌, ap, ◌⊎◌,
}
use tache_rs.Std.Exec.{Outcome, ok, err, panicked}
use tache_rs.Std.Io.{Reader, IoError, stream_end, io_error, other}
use tache_rs.Crates.Async.{AsyncCrates, IsDocumented, reference, by_reference}
use tache_rs.Socks5.Address.Read.{stream}
use tache_rs.Socks5.HandshakeRequest.{HandshakeRequest, read_from}

-- The stream `r` has given the result: an accepted request was there byte for byte; an error is that
-- of a stream which ends too early, or of another version.
abbrev pub Accepts : Reader → Outcome IoError HandshakeRequest × Reader → Type 0
Accepts r (ok h, r') =
    (r.bytes ≡ 5 ∷ length h.methods ∷ h.methods ++ r'.bytes) × (r'.fault ≡ r.fault)
Accepts r (err e, r') =
    ((e ≡ stream_end r.fault)
      × ((length r.bytes < 2)
          ⊎ ((n : ℕ) × (bs : List ℕ) × (r.bytes ≡ 5 ∷ n ∷ bs) × (length bs < n))))
    ⊎ ((v : ℕ) × (n : ℕ) × (r.bytes ≡ v ∷ n ∷ r'.bytes)
        × (v ≢ 5)
        × (e ≡ io_error other "Invalid Socks5 version"))
Accepts r (panicked, r') = ⊥

module _ (spare : ℕ → ℕ) where
  handshake-Accepts-reference :
      (bs : List ℕ) (fault : Option IoError)
      → Accepts (stream bs fault) (read_from (reference spare) (stream bs fault))
  unfolding read_from
  handshake-Accepts-reference (v ∷ n ∷ bs) fault = elim (Bool-cases (v == 5)) [
    | inr bad ↦ rw bad (inr (v, n, refl, ground arith, refl))
    | inl good ↦ rw good (elim (split_at-cases n bs) [
      | inl (short, h) ↦
          rw short (inl (refl, inr (n, bs, ap (λ (t : ℕ). t ∷ n ∷ bs) (ground arith), h)))
      | inr (enough, h) ↦ rw enough (
        cc (
          let e : v ≡ 5 = ground arith in e,
          let e : length (take n bs) ≡ n = omega (arith, length-take n bs) in e,
          take-append-drop n bs,
        ),
        refl,
      )
    ])
  ]
  handshake-Accepts-reference _ fault = inl (refl, inl (omega arith))

-- Whatever bytes arrive, reading a handshake request does not panic. A request that is returned
-- was there byte for byte; an error is that of a stream which ends too early, or it tells that
-- the version, the first of the two bytes that were taken, is not 5. The functions of the
-- crates do what is documented.
pub handshake-Accepts :
    (crates : AsyncCrates)
    → IsDocumented crates
    → (bs : List ℕ) (fault : Option IoError)
    → Accepts (stream bs fault) (read_from crates (stream bs fault))
handshake-Accepts crates documented bs fault =
    by_reference (λ c. Accepts (stream bs fault) (read_from c (stream bs fault))) crates documented
      λ spare. handshake-Accepts-reference spare bs fault
