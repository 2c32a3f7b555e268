-- ===== src/V5/Datagram/Overrun.antt =====
-- protocol/socks/v5.rs: `recv_from` with a payload that is larger than the caller's buffer.
use tache_rs.Prelude.{
  ℕ, ◌+◌, ◌-◌, ◌≤◌, ◌<◌, ◌≡◌, refl, List, ◌++◌, length, length-append, take, drop, min, replicate,
  length-take, length-drop, arith, Bool-cases, inl, inr, ◌==◌, ◌⊎◌,
}
use tache_rs.Std.Exec.{Exec, ok}
use tache_rs.Std.Io.{IoError}
use tache_rs.Std.Array.{overwrite_short}
use tache_rs.Crates.ByteOrder.{ByteOrder, IsDocumented, by_big_endian}
use tache_rs.Utils.{Address}
use tache_rs.V5.Format.{IsTarget, received}
use tache_rs.V5.Datagram.{UdpSocket, Received, panics, out_of_bounds, copy_within, recv_from, place}
use tache_rs.V5.Datagram.Payload.{scatter, lay, header_of}
use tache_rs.V5.Datagram.Receive.{with_header, header_room, recv_parses}

-- The two ways the call breaks off: a slice index out of range, and a copy outside of the buffer.
abbrev pub IsFault : Received → Type 0
IsFault r = (r ≡ panics) ⊎ (r ≡ out_of_bounds)

place_short :
    (n : ℕ) (p buf : List ℕ) (a : Address)
    → 0 < length p
    → n ≤ length buf
    → length buf < length p + n
    → IsFault (place n p a (copy_within (length p) n buf))
unfolding copy_within
place_short n p buf a pos fits short = elim (Bool-cases (n == 0)) [
  | inl zero_bytes ↦
      let e : n ≡ 0 = ground arith in
      let over : length buf < 0 + length p = omega arith in
      inl (rw (zero_bytes, overwrite_short 0 p buf pos over) refl)
  | inr some_bytes ↦
      let ne : 0 < n = ground arith in
      let e : length (take n buf) ≡ n = omega (arith, length-take n buf) in
      let over : length buf < length p + length (take n buf) = omega (arith, e) in
      let pos' : 0 < length (take n buf) = omega (arith, e) in
      inr (rw (some_bytes, overwrite_short (length p) (take n buf) buf pos' over) refl)
]

length-lay : (xs buf : List ℕ) → length (lay (take (length buf) xs) buf) ≡ length buf
length-lay xs buf = omega (
  arith,
  length-append (take (length buf) xs) (drop (length (take (length buf) xs)) buf),
  length-drop (length (take (length buf) xs)) buf,
  length-take (length buf) xs,
)

-- Where the vectored read puts a datagram from a valid address into the header and the caller's
-- buffer, and the payload does not fit the buffer, `recv_from` never delivers what did fit: it
-- panics, or its copy through raw pointers writes behind the end of the buffer. The functions
-- of the crates do what is documented.
pub recv_overruns :
    (k : ByteOrder)
    → IsDocumented k
    → (readv : List ℕ → List ℕ → Exec UdpSocket IoError (ℕ × List ℕ × List ℕ)) (a : Address)
      (payload buf : List ℕ) (s after : UdpSocket)
    → IsTarget a
    → length buf < length payload
    → readv (replicate 263 0) buf s
      ≡ (ok (scatter (header_of a ++ payload) (replicate 263 0) buf), after)
    → IsFault (recv_from k readv buf s)
recv_overruns k documented readv a payload buf s after h large reads =
    by_big_endian (λ b. IsFault (recv_from b readv buf s)) k documented
      (rw (recv_parses readv a payload buf s after h reads) (
        place_short _ (with_header a payload)
          (lay (take (length buf) (drop 263 (header_of a ++ payload))) buf) (received a)
          (omega (arith, size, room)) (omega (arith, size, room, total, kept))
          (omega (arith, size, room, total, kept))))
  where
    size : length (with_header a payload) ≡ min (263 - length (header_of a)) (length payload)
    size = length-take (263 - length (header_of a)) payload

    room : length (header_of a) ≤ 262
    room = header_room a h

    total : length (header_of a ++ payload) ≡ length (header_of a) + length payload
    total = length-append (header_of a) payload

    kept : length (lay (take (length buf) (drop 263 (header_of a ++ payload))) buf) ≡ length buf
    kept = length-lay (drop 263 (header_of a ++ payload)) buf
