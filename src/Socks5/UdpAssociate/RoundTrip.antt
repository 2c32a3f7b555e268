-- ===== src/Socks5/UdpAssociate/RoundTrip.antt =====
-- `UdpAssociateHeader`: what is sent, and what is accepted.
use tache_rs.Prelude.{ℕ, ◌≡◌, refl, List, [], ◌∷◌, ◌++◌, Option, arith}
use tache_rs.Std.Exec.{ok}
use tache_rs.Std.Io
use tache_rs.Std.Io.{Reader, Writer, IoError}
use tache_rs.Crates.Async.{AsyncCrates, IsDocumented, reference, by_reference}
use tache_rs.Socks5.Address
use tache_rs.Socks5.Address.{Address}
use tache_rs.Socks5.Address.Wire.{wire, IsAddress, carried}
use tache_rs.Socks5.Address.Write.{
  seq-Appends, put_within-Appends, write_address-Appends, write_packet_lem, length-wire,
}
use tache_rs.Socks5.Address.Read.{stream, read_from-wire-reference}
use tache_rs.Socks5.UdpAssociate.{
  UdpAssociateHeader, serialized_len, read_from, write_to_buf, write_to,
}

-- RFC 1928, section 7; the reserved bytes are sent as 0.
unfoldable pub packet : UdpAssociateHeader → List ℕ
packet h = 0 ∷ 0 ∷ h.frag ∷ wire h.address

module _ (spare : ℕ → ℕ) where
  write_to-reference :
      (h : UdpAssociateHeader) (w : Writer)
      → IsAddress h.address
      → write_to (reference spare) h w ≡ Io.write_all (packet h) w
  unfolding write_to write_to_buf packet Address.serialized_len
  write_to-reference h w v =
      write_packet_lem spare (serialized_len h)
        (seq-Appends (put_within-Appends (0 ∷ 0 ∷ h.frag ∷ []))
          (write_address-Appends spare h.address v))
        (omega (arith, length-wire h.address)) w

  read_from-reference :
      (h : UdpAssociateHeader) (rest : List ℕ) (fault : Option IoError)
      → IsAddress h.address
      → read_from (reference spare) (stream (packet h ++ rest) fault)
        ≡ (ok (record h { address = carried h.address }), stream rest fault)
  unfolding read_from packet
  read_from-reference h rest fault v =
      rw (read_from-wire-reference spare rest fault h.address v) refl

module _ (crates : AsyncCrates) (documented : IsDocumented crates) where
  -- A header with a valid address goes to the sink as its packet, in one write and without a
  -- panic; and from a stream that begins with this packet the same header is read back, but for
  -- the flow label and the scope of an IPv6 address, and what follows the packet is left on the
  -- stream. The functions of the crates do what is documented.
  pub udp_round_trip :
      (h : UdpAssociateHeader) (w : Writer) (rest : List ℕ) (fault : Option IoError)
      → IsAddress h.address
      → (write_to crates h w ≡ Io.write_all (packet h) w)
        × (read_from crates (stream (packet h ++ rest) fault)
            ≡ (ok (record h { address = carried h.address }), stream rest fault))
  udp_round_trip h w rest fault v = (
    by_reference (λ k. write_to k h w ≡ Io.write_all (packet h) w) crates documented
        (λ spare. write_to-reference spare h w v),
    by_reference
        (λ k.
          read_from k (stream (packet h ++ rest) fault)
          ≡ (ok (record h { address = carried h.address }), stream rest fault))
        crates documented (λ spare. read_from-reference spare h rest fault v),
  )
