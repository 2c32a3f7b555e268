-- ===== src/Socks5/Address/Write.antt =====
-- `Address::write_to_buf` and `Address::write_to` write the wire format and never panic on a name
-- that fits its length byte.
use tache_rs.Prelude.{
  ℕ, ◌+◌, ◌/◌, ◌%◌, ◌≤◌, ◌<◌, ◌≡◌, refl, ap, ◌∙◌, List, [], ◌∷◌, ◌++◌, length, length-append, All,
  append-nil, append_assoc, le→leb, leb, arith, false,
}
use tache_rs.Std.Exec.{Exec, Never, ok, panicked, pure, ◌>>◌}
use tache_rs.Std.Io
use tache_rs.Std.Io.{Writer, IoError}
use tache_rs.Std.Net.{IsU16, v4, v6, octets_v4, segments, split_words}
use tache_rs.Crates.Async.{AsyncCrates, BytesMut, IsDocumented, reference, put_within, by_reference}
use tache_rs.Socks5.Address.{
  Address, socket_address, domain_name_address, get_addr_len, serialized_len, put_segments,
  write_ipv4_address, write_ipv6_address, write_domain_name_address, write_to_buf, write_packet,
  write_to,
}
use tache_rs.Socks5.Address.Wire.{port_bytes, wire, IsAddress}

-- `m` appends `xs` to any buffer that has room for it.
pub record Appends (m : Exec BytesMut Never Unit) (xs : List ℕ) : Type 0 where
  pub at :
      (b : BytesMut)
      → length b.filled + length xs ≤ b.capacity
      → m b ≡ (ok tt, record b { filled = b.filled ++ xs })

pub put_within-Appends : (xs : List ℕ) → Appends (put_within xs) xs
unfolding put_within
put_within-Appends xs = record { at = λ b h. rw (le→leb _ _ h) refl }

pub pure-Appends : Appends (pure tt) []
pure-Appends = record { at = λ b h. rw append-nil refl }

pub seq-Appends :
    {m n : Exec BytesMut Never Unit} {xs ys : List ℕ}
    → Appends m xs
    → Appends n ys
    → Appends (m >> n) (xs ++ ys)
seq-Appends {m} {n} {xs} {ys} hm hn = record {
  at = λ b h.
      let fits : length b.filled + length xs ≤ b.capacity = omega (arith, length-append xs ys) in
      let fits' : length (b.filled ++ xs) + length ys ≤ b.capacity =
        omega (arith, length-append xs ys, length-append b.filled xs) in
      rw (hm.at b fits) (
        hn.at (record b { filled = b.filled ++ xs }) fits'
        ∙ ap (λ (t : List ℕ). (ok tt, record b { filled = t })) (append_assoc b.filled xs ys));
}

high_byte : (n : ℕ) → IsU16 n → n / 256 % 256 ≡ n / 256
high_byte n h = omega arith

pub put_u16-Appends :
    (n : ℕ) → IsU16 n → Appends (put_within ((n / 256 % 256) ∷ (n % 256) ∷ [])) (port_bytes n)
put_u16-Appends n h = rw (high_byte n h) (put_within-Appends _)

-- Where the buffer has room for the name only up to 255 bytes, the length byte does not wrap.
put_len-Appends : (n : ℕ) → n ≤ 255 → Appends (put_within ((n % 256) ∷ [])) (n ∷ [])
put_len-Appends n h = let e : n % 256 ≡ n = omega arith in rw e (put_within-Appends _)

module _ (spare : ℕ → ℕ) where
  put_segments-Appends :
      (segs : List ℕ)
      → All IsU16 segs
      → Appends (put_segments (reference spare) segs) (split_words segs)
  unfolding put_segments
  put_segments-Appends [] h = pure-Appends
  put_segments-Appends (seg ∷ segs) h =
      seq-Appends (put_u16-Appends seg h.0) (put_segments-Appends segs h.1)

  write_domain-Appends :
      (name : List ℕ) (port : ℕ)
      → length name ≤ 255
      → IsU16 port
      → Appends
          (write_domain_name_address (reference spare) name port)
          (3 ∷ length name ∷ name ++ port_bytes port)
  unfolding write_domain_name_address
  write_domain-Appends name port fits h = record {
    at = λ b room. rw (le→leb _ _ fits) (
        (seq-Appends (put_within-Appends (3 ∷ [])) (
            seq-Appends (put_len-Appends (length name) fits)
              (seq-Appends (put_within-Appends name) (put_u16-Appends port h)))).at
          b room);
  }

  pub write_address-Appends :
      (a : Address) → IsAddress a → Appends (write_to_buf (reference spare) a) (wire a)
  unfolding write_to_buf write_ipv4_address write_ipv6_address wire
  write_address-Appends (socket_address (v4 a)) h =
      seq-Appends (put_within-Appends (1 ∷ []))
        (seq-Appends (put_within-Appends (octets_v4 a.ip)) (put_u16-Appends a.port h.1))
  write_address-Appends (socket_address (v6 a)) h =
      seq-Appends (put_within-Appends (4 ∷ []))
        (seq-Appends (put_segments-Appends (segments a.ip) h.0) (put_u16-Appends a.port h.1))
  write_address-Appends (domain_name_address name port) h = write_domain-Appends name port h.2 h.3

  -- A packet whose bytes fit the buffer that was asked for goes to the stream in one write.
  pub write_packet_lem :
      (n : ℕ) {fill : Exec BytesMut Never Unit} {xs : List ℕ}
      → Appends fill xs
      → length xs ≤ n
      → (w : Writer) → write_packet (reference spare) n fill w ≡ Io.write_all xs w
  unfolding write_packet
  write_packet_lem n {fill} {xs} appends h w =
      rw (appends.at (record { filled = []; capacity = n + spare n }) (omega arith)) refl

pub length-wire : (a : Address) → length (wire a) ≡ get_addr_len a
unfolding wire get_addr_len
length-wire (socket_address (v4 a)) = refl
length-wire (socket_address (v6 a)) = refl
length-wire (domain_name_address name port) = omega (arith, length-append name (port_bytes port))

too_long : (n : ℕ) → 255 < n → leb n 255 ≡ false
too_long n h = ground arith

module _ (crates : AsyncCrates) (documented : IsDocumented crates) where
  -- Writing a valid address sends exactly its wire format, in one write, and does not panic:
  -- the buffer that `serialized_len` asks for has room for all of it. The functions of the
  -- crates do what is documented.
  pub write_to_lem :
      (a : Address) (w : Writer) → IsAddress a → write_to crates a w ≡ Io.write_all (wire a) w
  write_to_lem a w h =
      by_reference (λ c. write_to c a w ≡ Io.write_all (wire a) w) crates documented
        λ spare.
          unfold write_to serialized_len in
          write_packet_lem spare (get_addr_len a) (write_address-Appends spare a h)
            (omega (arith, length-wire a)) w

  -- A name of more than 255 bytes stops the writer by its assertion, and nothing is sent. The
  -- functions of the crates do what is documented.
  pub write_to_long_name :
      (name : List ℕ) (port : ℕ) (w : Writer)
      → 255 < length name
      → write_to crates (domain_name_address name port) w ≡ (panicked, w)
  write_to_long_name name port w h =
      by_reference (λ c. write_to c (domain_name_address name port) w ≡ (panicked, w)) crates
        documented λ spare. unfold write_to in rw (too_long (length name) h) refl
