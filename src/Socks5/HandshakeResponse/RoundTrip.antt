-- ===== src/Socks5/HandshakeResponse/RoundTrip.antt =====
-- `HandshakeResponse`: what is sent, what is accepted, and why the rest is refused.
use tache_rs.Prelude.{
  ℕ, ◌≡◌, ◌≢◌, ◌<◌, refl, List, [], ◌∷◌, ◌++◌, length, Option, arith, Bool-cases, inl, inr, ◌==◌,
  ◌⊎◌, ap,
}
use tache_rs.Std.Exec.{Outcome, ok, err, panicked}
use tache_rs.Std.Io
use tache_rs.Std.Io.{Reader, Writer, IoError, stream_end, io_error, other}
use tache_rs.Crates.Async.{AsyncCrates, IsDocumented, reference, by_reference}
use tache_rs.Socks5.Address.Write.{put_within-Appends, write_packet_lem}
use tache_rs.Socks5.Address.Read.{stream}
use tache_rs.Socks5.HandshakeResponse.{
  HandshakeResponse, serialized_len, read_from, write_to_buf, write_to,
}

unfoldable pub packet : HandshakeResponse → List ℕ
packet h = 5 ∷ h.chosen_method ∷ []

-- The stream `r` has given the result: the method is the second byte of a packet of version 5; an
-- error is that of a stream which ends too early, or of another version.
abbrev pub Accepts : Reader → Outcome IoError HandshakeResponse × Reader → Type 0
Accepts r (ok h, r') = (r.bytes ≡ packet h ++ r'.bytes) × (r'.fault ≡ r.fault)
Accepts r (err e, r') =
    ((length r.bytes < 2) × (e ≡ stream_end r.fault))
    ⊎ ((v : ℕ) × (c : ℕ) × (r.bytes ≡ v ∷ c ∷ r'.bytes)
        × (v ≢ 5)
        × (e ≡ io_error other "Invalid Socks5 version"))
Accepts r (panicked, r') = ⊥

module _ (spare : ℕ → ℕ) where
  write_to-reference :
      (h : HandshakeResponse) (w : Writer)
      → write_to (reference spare) h w ≡ Io.write_all (packet h) w
  unfolding write_to write_to_buf packet
  write_to-reference h w =
      write_packet_lem spare (serialized_len h) (put_within-Appends (5 ∷ h.chosen_method ∷ []))
        (unfold serialized_len in omega arith) w

  Accepts-reference :
      (bs : List ℕ) (fault : Option IoError)
      → Accepts (stream bs fault) (read_from (reference spare) (stream bs fault))
  unfolding read_from packet
  Accepts-reference (v ∷ c ∷ bs) fault = elim (Bool-cases (v == 5)) [
    | inr bad ↦ rw bad (inr (v, c, refl, ground arith, refl))
    | inl good ↦ rw good (ap (λ (t : ℕ). t ∷ c ∷ bs) (ground arith), refl)
  ]
  Accepts-reference _ fault = inl (omega arith, refl)

-- A response is sent as its packet without a panic. Reading never panics: an accepted method
-- was the second byte of a packet of version 5, which alone was taken from the stream, and an
-- error means that the stream ends too early or that the version is another. The functions of
-- the crates do what is documented.
pub response_exact :
    (crates : AsyncCrates)
    → IsDocumented crates
    → (h : HandshakeResponse) (w : Writer) (bs : List ℕ) (fault : Option IoError)
    → (write_to crates h w ≡ Io.write_all (packet h) w)
      × Accepts (stream bs fault) (read_from crates (stream bs fault))
response_exact crates documented h w bs fault = (
  by_reference (λ c. write_to c h w ≡ Io.write_all (packet h) w) crates documented
      (λ spare. write_to-reference spare h w),
  by_reference (λ c. Accepts (stream bs fault) (read_from c (stream bs fault))) crates documented
      (λ spare. Accepts-reference spare bs fault),
)
