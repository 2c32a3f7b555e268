-- ===== src/V5/Datagram/Payload.antt =====
-- protocol/socks/v5.rs: datagrams as they are on the wire, and what `send_to` sends.
use tache_rs.Prelude.{
  ℕ, ◌+◌, ◌≤◌, ◌≡◌, ap, List, [], ◌∷◌, ◌++◌, length, take, drop, min, length-replicate,
  take-append_eq, arith,
}
use tache_rs.Std.Exec.{Exec, ok}
use tache_rs.Std.Io.{IoError}
use tache_rs.Crates.ByteOrder.{ByteOrder, IsDocumented}
use tache_rs.Utils.{Address}
use tache_rs.V5.Format.{wire_of, IsTarget}
use tache_rs.V5.WriteAddr.{write_addr_lem}
use tache_rs.V5.Client.Packets.{wire-short, fresh, zeros}
use tache_rs.V5.Datagram.{UdpSocket, send_to}

-- RFC 1928, section 7: reserved bytes, fragment, address.
abbrev pub header_of : Address → List ℕ
header_of a = 0 ∷ 0 ∷ 0 ∷ wire_of a

-- A datagram read into two buffers: the number of bytes that fit, and the buffers after it.
abbrev pub lay : List ℕ → List ℕ → List ℕ
lay xs old = xs ++ drop (length xs) old

abbrev pub scatter : List ℕ → List ℕ → List ℕ → ℕ × List ℕ × List ℕ
scatter d first second = (
  min (length d) (length first + length second),
  lay (take (length first) d) first,
  lay (take (length second) (drop (length first) d)) second,
)

module _ (k : ByteOrder) (documented : IsDocumented k) where
  -- A datagram for a valid address goes out as the header of RFC 1928 and the caller's bytes,
  -- in one vectored write. The functions of the crates do what is documented.
  pub send_to_lem :
      (writev : List ℕ → List ℕ → Exec UdpSocket IoError ℕ) (buf : List ℕ) (a : Address)
      (s : UdpSocket)
      → IsTarget a
      → send_to k writev buf (ok a) s ≡ writev (header_of a) buf s
  unfolding send_to
  send_to_lem writev buf a s h =
      rw (write_addr_lem k documented a fresh h room) (ap (λ (p : List ℕ). writev p buf s) whole)
    where
      room : length (wire_of a) ≤ length zeros
      room = omega (arith, wire-short a h, length-replicate {A = ℕ} 260 0)

      whole :
          take
            (length (wire_of a) + 3)
            (0 ∷ 0 ∷ 0 ∷ ([] ++ wire_of a) ++ drop (length (wire_of a)) zeros)
          ≡ header_of a
      whole = take-append_eq _ (header_of a) _ (omega arith)
