-- ===== src/Socks5/UdpAssociate/Sound.antt =====
-- `UdpAssociateHeader::read_from` on any bytes: what it accepts, and why it refuses the rest.
use tache_rs.Prelude.{
  ℕ, ◌≤◌, ◌<◌, ◌≡◌, refl, List, ◌∷◌, ◌++◌, length, All, Option, inl, inr, ◌⊎◌, arith,
}
use tache_rs.Std.Exec.{Outcome, ok, err, panicked, continue, pure}
use tache_rs.Std.Io.{Reader, IoError}
use tache_rs.Std.Net.{IsByte}
use tache_rs.Crates.Async.{AsyncCrates, IsDocumented, reference, by_reference}
use tache_rs.Socks5.Reply.{general_failure}
use tache_rs.Socks5.Error.{Error}
use tache_rs.Socks5.Address.{Address}
use tache_rs.Socks5.Address.Wire.{wire, IsAddress}
use tache_rs.Socks5.Address.Read.{stream}
use tache_rs.Socks5.Address.Sound.{IsReadError, ReadsBack, read_from-ReadsBack-reference}
use tache_rs.Socks5.UdpAssociate.{UdpAssociateHeader, read_from}

-- The stream `r` has given the result: an accepted header was there byte for byte, but for the two
-- reserved bytes, which are not looked at.
abbrev pub Accepts : Reader → Outcome Error UdpAssociateHeader × Reader → Type 0
Accepts r (ok h, r') =
    ((hi : ℕ) × (lo : ℕ) × (r.bytes ≡ hi ∷ lo ∷ h.frag ∷ wire h.address ++ r'.bytes))
    × IsAddress h.address
    × (r'.fault ≡ r.fault)
Accepts r (err e, r') =
    ((length r.bytes < 3) × (e.reply ≡ general_failure)) ⊎ ((3 ≤ length r.bytes) × IsReadError e)
Accepts r (panicked, r') = ⊥

module _ (bs : List ℕ) (fault : Option IoError) where
  with_address :
      (hi lo frag : ℕ) (x : Outcome Error Address × Reader)
      → ReadsBack (stream bs fault) x
      → Accepts
          (stream (hi ∷ lo ∷ frag ∷ bs) fault)
          (continue x (λ a. pure (record { frag = frag; address = a })))
  with_address hi lo frag (ok a, r') (e, valid, same, end) = ((hi, lo, cc e), valid, end)
  with_address hi lo frag (err e, r') h = inr (omega arith, h)
  with_address hi lo frag (panicked, r') h = h

module _ (spare : ℕ → ℕ) (fault : Option IoError) where
  udp-Accepts-reference :
      (bs : List ℕ)
      → All IsByte bs
      → Accepts (stream bs fault) (read_from (reference spare) (stream bs fault))
  unfolding read_from
  udp-Accepts-reference (hi ∷ lo ∷ frag ∷ bs) h =
      with_address bs fault hi lo frag _ (read_from-ReadsBack-reference spare fault bs h.1.1.1)
  udp-Accepts-reference _ h = inl (omega arith, refl)

-- Whatever bytes arrive, reading the header of a datagram does not panic. A header that is
-- returned was there byte for byte (the reserved bytes are not looked at), with a valid
-- address; an error means that there were fewer than three bytes or that the address fails. The
-- functions of the crates do what is documented.
pub udp-Accepts :
    (crates : AsyncCrates)
    → IsDocumented crates
    → (bs : List ℕ) (fault : Option IoError) → All IsByte bs
    → Accepts (stream bs fault) (read_from crates (stream bs fault))
udp-Accepts crates documented bs fault h =
    by_reference (λ k. Accepts (stream bs fault) (read_from k (stream bs fault))) crates documented
      λ spare. udp-Accepts-reference spare fault bs h
