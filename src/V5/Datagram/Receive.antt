-- ===== src/V5/Datagram/Receive.antt =====
-- protocol/socks/v5.rs: what `recv_from` gives the caller.
use tache_rs.Prelude.{
  ℕ, ◌+◌, ◌-◌, ◌≤◌, ◌≡◌, refl, ap, ◌∙◌, sym, List, ◌++◌, length, length-append, append_assoc, take,
  drop, min, replicate, take-append_eq, take-append_ge, drop-append_ge, drop-append_eq, take-append,
  take-append-drop, length-take, length-drop, take-all, drop-drop, arith, Bool-cases, inl, inr,
  ◌==◌, none, some,
}
use tache_rs.Std.Exec.{Exec, ok}
use tache_rs.Std.Io.{IoError}
use tache_rs.Std.Array.{overwrite_lem}
use tache_rs.Crates.ByteOrder.{ByteOrder, IsDocumented, big_endian, by_big_endian}
use tache_rs.Utils.{Address}
use tache_rs.Socks5.Address.Read.{stream}
use tache_rs.V5.Format.{IsTarget, received}
use tache_rs.V5.ReadAddr.{read_addr-wire}
use tache_rs.V5.Client.Packets.{wire-short}
use tache_rs.V5.Datagram.{UdpSocket, delivered, copy_within, parse_header, recv_from, place}
use tache_rs.V5.Datagram.Payload.{header_of, lay, scatter}

copy_within_lem :
    (i n : ℕ) (buf : List ℕ)
    → i + n ≤ length buf
    → copy_within i n buf ≡ some (take i buf ++ (take n buf ++ drop (i + n) buf))
unfolding copy_within
copy_within_lem i n buf h = elim (Bool-cases (n == 0)) [
  | inl zero_bytes ↦
      let e : n ≡ 0 = ground arith in
      let e' : i + 0 ≡ i = omega arith in rw (e, e', take-append-drop i buf) refl
  | inr some_bytes ↦
      let e : length (take n buf) ≡ n = omega (arith, length-take n buf) in
      rw some_bytes (overwrite_lem i (take n buf) buf (omega (arith, e)) ∙ rw e refl)
]

-- What came behind the header moves up, and the bytes that came with the header go in front of it.
place_lem :
    (p q tail : List ℕ) (a : Address)
    → length p ≤ length tail
    → place (length q) p a (copy_within (length p) (length q) (q ++ tail))
      ≡ delivered (length p + length q) a (p ++ (q ++ drop (length p + length q) (q ++ tail)))
place_lem p q tail a h =
    let whole : length (q ++ tail) ≡ length q + length tail = length-append q tail in
    let front : length (take (length p) (q ++ tail)) ≡ length p =
      omega (arith, length-take (length p) (q ++ tail), whole) in
    let rest = q ++ drop (length p + length q) (q ++ tail) in
    let room : 0 + length p ≤ length (take (length p) (q ++ tail) ++ rest) =
      omega (arith, length-append (take (length p) (q ++ tail)) rest, front) in
    rw
      (
        copy_within_lem (length p) (length q) (q ++ tail) (omega (arith, whole)),
        take-append q tail,
        overwrite_lem 0 p (take (length p) (q ++ tail) ++ rest) room,
        drop-append_eq (0 + length p) (take (length p) (q ++ tail)) rest (omega (arith, front)),
      )
      refl

-- The header is read back, and what came with it is left.
parse_header_lem :
    (a : Address) (p : List ℕ)
    → IsTarget a
    → parse_header big_endian (stream (header_of a ++ p) none) ≡ (ok (received a), stream p none)
unfolding parse_header
parse_header_lem a p h = read_addr-wire p none a h

-- The bytes of a datagram that come with the header, and those that come in the caller's buffer.
abbrev pub with_header : Address → List ℕ → List ℕ
with_header a payload = take (263 - length (header_of a)) payload

abbrev behind : Address → List ℕ → List ℕ
behind a payload = drop (263 - length (header_of a)) payload

pub header_room : (a : Address) → IsTarget a → length (header_of a) ≤ 262
header_room a h = omega (arith, wire-short a h)

module _ (a : Address) (payload buf : List ℕ) (h : IsTarget a) where
  front : take 263 (header_of a ++ payload) ≡ header_of a ++ with_header a payload
  front = take-append_ge 263 (header_of a) payload (omega (arith, header_room a h))

  back : drop 263 (header_of a ++ payload) ≡ behind a payload
  back = drop-append_ge 263 (header_of a) payload (omega (arith, header_room a h))

  first_part :
      take (min 263 (min (length (header_of a ++ payload)) (263 + length buf))) (
        take 263 (header_of a ++ payload)
        ++ drop (length (take 263 (header_of a ++ payload))) (replicate 263 0))
      ≡ header_of a ++ with_header a payload
  first_part =
      take-append_eq _ (take 263 (header_of a ++ payload)) _
        (omega (arith, length-take 263 (header_of a ++ payload)))
      ∙ front

  second_part :
      length payload ≤ length buf
      → lay (take (length buf) (drop 263 (header_of a ++ payload))) buf
        ≡ behind a payload ++ drop (length (behind a payload)) buf
  second_part fits =
      let short : length (behind a payload) ≤ length buf =
        omega (arith, length-drop (263 - length (header_of a)) payload) in
      rw (back, take-all (length buf) (behind a payload) short) refl

  overflow_lem :
      length payload ≤ length buf
      → min (length (header_of a ++ payload)) (263 + length buf) - 263 ≡ length (behind a payload)
  overflow_lem fits = omega (
    arith,
    length-append (header_of a) payload,
    header_room a h,
    length-drop (263 - length (header_of a)) payload,
  )

  -- The caller's buffer after the call.
  assembled :
      length payload ≤ length buf
      → place (length (behind a payload)) (with_header a payload) (received a) (
          copy_within
            (length (with_header a payload))
            (length (behind a payload))
            (behind a payload ++ drop (length (behind a payload)) buf))
        ≡ delivered (length payload) (received a) (payload ++ drop (length payload) buf)
  assembled fits =
      let p = with_header a payload in
      let q = behind a payload in
      let both : p ++ q ≡ payload = take-append-drop (263 - length (header_of a)) payload in
      let size : length p + length q ≡ length payload = sym (length-append p q) ∙ ap length both in
      let room : length p ≤ length (drop (length q) buf) =
        omega (arith, size, length-drop (length q) buf) in
      let enough : length q ≤ length payload = omega (arith, size) in
      let tail : drop (length payload) (q ++ drop (length q) buf) ≡ drop (length payload) buf =
        let e : length q + (length payload - length q) ≡ length payload = omega arith in
        drop-append_ge (length payload) q (drop (length q) buf) enough
        ∙ drop-drop (length q) (length payload - length q) buf
        ∙ ap (λ n. drop n buf) e in
      place_lem p q (drop (length q) buf) (received a) room
      ∙ rw (size, tail, ← append_assoc p q (drop (length payload) buf), both) refl

module _ (readv : List ℕ → List ℕ → Exec UdpSocket IoError (ℕ × List ℕ × List ℕ)) (a : Address)
    (payload buf : List ℕ) (s after : UdpSocket) where
  -- What the parse gives, whatever the rest of the call does with it.
  pub recv_parses :
      IsTarget a
      → readv (replicate 263 0) buf s
        ≡ (ok (scatter (header_of a ++ payload) (replicate 263 0) buf), after)
      → recv_from big_endian readv buf s
        ≡ place
            (min (length (header_of a ++ payload)) (263 + length buf) - 263)
            (with_header a payload)
            (received a)
            (copy_within
              (length (with_header a payload))
              (min (length (header_of a ++ payload)) (263 + length buf) - 263)
              (lay (take (length buf) (drop 263 (header_of a ++ payload))) buf))
  unfolding recv_from
  recv_parses h reads =
      rw (reads, first_part a payload buf h, parse_header_lem a (with_header a payload) h) refl

  recv_reference :
      IsTarget a
      → length payload ≤ length buf
      → readv (replicate 263 0) buf s
        ≡ (ok (scatter (header_of a ++ payload) (replicate 263 0) buf), after)
      → recv_from big_endian readv buf s
        ≡ delivered (length payload) (received a) (payload ++ drop (length payload) buf)
  recv_reference h fits reads =
      recv_parses h reads
      ∙ rw (overflow_lem a payload buf h fits, second_part a payload buf h fits)
          (assembled a payload buf h fits)

-- Where the vectored read puts a datagram from a valid address into the header and the caller's
-- buffer, and the payload fits the buffer, `recv_from` gives the length of the payload and the
-- address of its sender; the buffer then begins with the payload and is otherwise as it was.
-- The functions of the crates do what is documented.
pub recv_fits :
    (k : ByteOrder)
    → IsDocumented k
    → (readv : List ℕ → List ℕ → Exec UdpSocket IoError (ℕ × List ℕ × List ℕ)) (a : Address)
      (payload buf : List ℕ) (s after : UdpSocket)
    → IsTarget a
    → length payload ≤ length buf
    → readv (replicate 263 0) buf s
      ≡ (ok (scatter (header_of a ++ payload) (replicate 263 0) buf), after)
    → recv_from k readv buf s
      ≡ delivered (length payload) (received a) (payload ++ drop (length payload) buf)
recv_fits k documented readv a payload buf s after h fits reads =
    by_big_endian
      (λ b.
        recv_from b readv buf s
        ≡ delivered (length payload) (received a) (payload ++ drop (length payload) buf))
      k documented (recv_reference readv a payload buf s after h fits reads)
