-- ===== src/Socks5/HandshakeRequest/RoundTrip.antt =====
-- `HandshakeRequest`: what is sent and accepted, and what the length byte does to long lists.
use tache_rs.Prelude.{
  ℕ, ◌%◌, ◌≤◌, ◌<◌, ◌≡◌, refl, List, [], ◌∷◌, ◌++◌, length, take, drop, take-append, drop-append,
  take-append_le, drop-append_le, length-drop, length-append, length-take, split_at-take-drop,
  take-append-drop, Option, arith,
}
use tache_rs.Std.Exec.{ok}
use tache_rs.Std.Io
use tache_rs.Std.Io.{Reader, Writer, IoError, stream_end, io_error, other}
use tache_rs.Crates.Async.{AsyncCrates, IsDocumented, reference, by_reference}
use tache_rs.Socks5.Address.Write.{seq-Appends, put_within-Appends, write_packet_lem}
use tache_rs.Socks5.Address.Read.{stream}
use tache_rs.Socks5.HandshakeRequest.{
  HandshakeRequest, serialized_len, read_from, write_to_buf, write_to,
}

-- RFC 1928, section 3, with the length as it is sent.
unfoldable pub packet : HandshakeRequest → List ℕ
packet h = 5 ∷ (length h.methods % 256) ∷ h.methods

abbrev pub methods_of : List ℕ → HandshakeRequest
methods_of ms = record { methods = ms }

module _ (spare : ℕ → ℕ) where
  write_to-reference :
      (h : HandshakeRequest) (w : Writer)
      → write_to (reference spare) h w ≡ Io.write_all (packet h) w
  unfolding write_to write_to_buf packet
  write_to-reference h w =
      write_packet_lem spare (serialized_len h)
        (seq-Appends (put_within-Appends (5 ∷ (length h.methods % 256) ∷ []))
          (put_within-Appends h.methods))
        (unfold serialized_len in omega arith) w

  -- The reader takes as many methods as the length byte says.
  read_from-reference :
      (n : ℕ) (bs : List ℕ) (fault : Option IoError)
      → n ≤ length bs
      → read_from (reference spare) (stream (5 ∷ n ∷ bs) fault)
        ≡ (ok (methods_of (take n bs)), stream (drop n bs) fault)
  unfolding read_from
  read_from-reference n bs fault h = rw (split_at-take-drop n bs h) refl

module _ (crates : AsyncCrates) (documented : IsDocumented crates) where
  pub handshake_write :
      (h : HandshakeRequest) (w : Writer) → write_to crates h w ≡ Io.write_all (packet h) w
  handshake_write h w =
      by_reference (λ c. write_to c h w ≡ Io.write_all (packet h) w) crates documented
        (λ spare. write_to-reference spare h w)

  pub handshake_read :
      (n : ℕ) (bs : List ℕ) (fault : Option IoError)
      → n ≤ length bs
      → read_from crates (stream (5 ∷ n ∷ bs) fault)
        ≡ (ok (methods_of (take n bs)), stream (drop n bs) fault)
  handshake_read n bs fault h =
      by_reference
        (λ c.
          read_from c (stream (5 ∷ n ∷ bs) fault)
          ≡ (ok (methods_of (take n bs)), stream (drop n bs) fault))
        crates documented (λ spare. read_from-reference spare n bs fault h)

  -- A request with at most 255 methods is sent as its packet without a panic, and read back
  -- from any stream that begins with the packet; what follows is left on the stream. The
  -- functions of the crates do what is documented.
  pub handshake_round_trip :
      (h : HandshakeRequest) (w : Writer) (rest : List ℕ) (fault : Option IoError)
      → length h.methods ≤ 255
      → (write_to crates h w ≡ Io.write_all (packet h) w)
        × (read_from crates (stream (packet h ++ rest) fault) ≡ (ok h, stream rest fault))
  unfolding packet
  handshake_round_trip h w rest fault fits =
      let e : length h.methods % 256 ≡ length h.methods = omega arith in
      let enough : length h.methods ≤ length (h.methods ++ rest) =
        omega (arith, length-append h.methods rest) in
      (
        handshake_write h w,
        rw
            (
              e,
              handshake_read (length h.methods) (h.methods ++ rest) fault enough,
              take-append h.methods rest,
              drop-append h.methods rest,
            )
            refl,
      )

  -- A request of more than 255 methods goes to the sink, in one write, as bytes in whose length
  -- the number of methods has wrapped: from a stream that begins with what is sent the reader
  -- gets fewer methods than the request has, and leaves at least one of them on the stream as
  -- if it were the next packet. The functions of the crates do what is documented.
  pub handshake_wraps :
      (h : HandshakeRequest) (w : Writer) (rest : List ℕ) (fault : Option IoError)
      → 255 < length h.methods
      → (sent : List ℕ) × (got : HandshakeRequest) × (left : List ℕ) × (write_to crates h w
          ≡ Io.write_all sent w)
        × (read_from crates (stream (sent ++ rest) fault) ≡ (ok got, stream (left ++ rest) fault))
        × (got.methods ++ left ≡ h.methods)
        × (length got.methods ≡ length h.methods % 256)
        × (0 < length left)
  unfolding packet
  handshake_wraps h w rest fault long =
      let n = length h.methods % 256 in
      let fewer : n < length h.methods = omega arith in
      let enough : n ≤ length (h.methods ++ rest) = omega (arith, length-append h.methods rest) in
      (
        packet h,
        methods_of (take n h.methods),
        drop n h.methods,
        handshake_write h w,
        rw
            (
              ← take-append_le n h.methods rest (omega arith),
              ← drop-append_le n h.methods rest (omega arith),
            )
            (handshake_read n (h.methods ++ rest) fault enough),
        take-append-drop n h.methods,
        omega (arith, length-take n h.methods),
        omega (arith, length-drop n h.methods),
      )
