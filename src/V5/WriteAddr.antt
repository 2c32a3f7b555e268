-- ===== src/V5/WriteAddr.antt =====
-- `write_addr` fills the front of a slice with the wire format of the target.
use tache_rs.Prelude.{
  ℕ, ◌+◌, ◌-◌, ◌*◌, ◌/◌, ◌%◌, ◌≤◌, ◌<◌, ◌≡◌, refl, ap, ◌∙◌, List, [], ◌∷◌, ◌++◌, length,
  length-append, append_assoc, drop, drop-drop, length-drop, split_at-take-drop, arith, ltb, not,
  false, true, All,
}
use tache_rs.Std.Exec.{Exec, ok, err, ◌>>◌, unwrap}
use tache_rs.Std.Io.{IoError, io_error, invalid_input}
use tache_rs.Std.Net.{IsByte, IsU16, v4, v6, Ipv4Addr, octets_v4, octets_v6, u32_from_ipv4}
use tache_rs.Std.Slice
use tache_rs.Std.Slice.{Slice}
use tache_rs.Crates.ByteOrder.{ByteOrder, IsDocumented, big_endian, by_big_endian, u16_be, u32_be}
use tache_rs.Utils.{Address, DomainName, socket_addr, domain_name}
use tache_rs.Socks5.Address.Wire.{wire, port_bytes}
use tache_rs.V5.Format.{wire_of, IsTarget}
use tache_rs.V5.Wire.{write_target, write_addr}

-- The slice after `xs` was written to it.
abbrev pub after : List ℕ → Slice → Slice
after xs s = record { written = s.written ++ xs; remaining = drop (length xs) s.remaining }

-- `m` writes `xs` to any slice that is long enough.
pub record Fills (m : Exec Slice IoError Unit) (xs : List ℕ) : Type 0 where
  pub at : (s : Slice) → length xs ≤ length s.remaining → m s ≡ (ok tt, after xs s)

write_all-Fills : (xs : List ℕ) → Fills (Slice.write_all xs) xs
unfolding Slice.write_all
write_all-Fills xs = record { at = λ s h. rw (split_at-take-drop _ s.remaining h) refl }

unwrap-Fills : {m : Exec Slice IoError Unit} {xs : List ℕ} → Fills m xs → Fills (unwrap m) xs
unwrap-Fills f = record { at = λ s h. rw (f.at s h) refl }

after-after : (xs ys : List ℕ) (s : Slice) → after ys (after xs s) ≡ after (xs ++ ys) s
after-after xs ys s =
    rw
      (
        drop-drop (length xs) (length ys) s.remaining,
        append_assoc s.written xs ys,
        ← length-append xs ys,
      )
      refl

seq-Fills :
    {m n : Exec Slice IoError Unit} {xs ys : List ℕ}
    → Fills m xs
    → Fills n ys
    → Fills (m >> n) (xs ++ ys)
seq-Fills {m} {n} {xs} {ys} f g = record {
  at = λ s h.
      let fits : length xs ≤ length s.remaining = omega (arith, length-append xs ys) in
      let fits' : length ys ≤ length (drop (length xs) s.remaining) =
        omega (arith, length-append xs ys, length-drop (length xs) s.remaining) in
      rw (f.at s fits)
        (g.at (after xs s) fits' ∙ ap (λ (t : Slice). (ok tt, t)) (after-after xs ys s));
}

put-Fills : (xs : List ℕ) → Fills (unwrap (Slice.write_all xs)) xs
put-Fills xs = unwrap-Fills (write_all-Fills xs)

u16-Fills : (n : ℕ) → IsU16 n → Fills (unwrap (Slice.write_all (u16_be n))) (port_bytes n)
u16-Fills n h = let e : n / 256 % 256 ≡ n / 256 = omega arith in rw e (put-Fills _)

u8-Fills : (n : ℕ) → n < 256 → Fills (unwrap (Slice.write_all ((n % 256) ∷ []))) (n ∷ [])
u8-Fills n h = let e : n % 256 ≡ n = omega arith in rw e (put-Fills _)

u32-octets :
    (a b c d : ℕ)
    → a < 256
    → b < 256
    → c < 256
    → d < 256
    → u32_be (((a * 256 + b) * 256 + c) * 256 + d) ≡ a ∷ b ∷ c ∷ d ∷ []
u32-octets a b c d ha hb hc hd =
    let e0 : (((a * 256 + b) * 256 + c) * 256 + d) / 0x1000000 % 256 ≡ a = omega arith in
    let e1 : (((a * 256 + b) * 256 + c) * 256 + d) / 0x10000 % 256 ≡ b = omega arith in
    let e2 : (((a * 256 + b) * 256 + c) * 256 + d) / 256 % 256 ≡ c = omega arith in
    let e3 : (((a * 256 + b) * 256 + c) * 256 + d) % 256 ≡ d = omega arith in cc

ip-Fills :
    (ip : Ipv4Addr)
    → All IsByte (octets_v4 ip)
    → Fills (unwrap (Slice.write_all (u32_be (u32_from_ipv4 ip)))) (octets_v4 ip)
ip-Fills ip h =
    rw (u32-octets ip.a ip.b ip.c ip.d (omega arith) (omega arith) (omega arith) (omega arith))
      (put-Fills _)

not_too_long : (n : ℕ) → n ≤ 255 → not (ltb 255 n) ≡ true
not_too_long n h = ground arith

write_target-Fills : (a : Address) → IsTarget a → Fills (write_target big_endian a) (wire_of a)
unfolding write_target wire
write_target-Fills (socket_addr (v4 a)) h =
    seq-Fills (put-Fills (1 ∷ [])) (seq-Fills (ip-Fills a.ip h.0) (u16-Fills a.port h.1))
write_target-Fills (socket_addr (v6 a)) h =
    seq-Fills (put-Fills (4 ∷ [])) (seq-Fills (put-Fills (octets_v6 a.ip)) (u16-Fills a.port h.1))
write_target-Fills (domain_name d) h = record {
  at = λ s room. rw (not_too_long _ h.2) (
      (seq-Fills (put-Fills (3 ∷ [])) (
          seq-Fills (u8-Fills (length d.name) (omega arith))
            (seq-Fills (put-Fills d.name) (u16-Fills d.port h.3)))).at
        s room);
}

write_addr_reference :
    (a : Address) (s : Slice)
    → IsTarget a
    → length (wire_of a) ≤ length s.remaining
    → write_addr big_endian a s ≡ (ok (length (wire_of a)), after (wire_of a) s)
unfolding write_addr
write_addr_reference a s h room =
    let e : length s.remaining - length (drop (length (wire_of a)) s.remaining)
        ≡ length (wire_of a) =
      omega (arith, length-drop (length (wire_of a)) s.remaining) in
    rw ((write_target-Fills a h).at s room, e) refl

too_long : (n : ℕ) → 255 < n → not (ltb 255 n) ≡ false
too_long n h = ground arith

write_addr_too_long_reference :
    (d : DomainName) (s : Slice)
    → 255 < length d.name
    → 0 < length s.remaining
    → write_addr big_endian (domain_name d) s
      ≡ (err (io_error invalid_input "domain name too long"), after (3 ∷ []) s)
unfolding write_addr write_target
write_addr_too_long_reference d s long room =
    rw ((put-Fills (3 ∷ [])).at s room, too_long _ long) refl

-- In a slice with room for it, `write_addr` writes the wire format of a valid target and
-- nothing else, and returns its length; it does not panic. The functions of the crates do what
-- is documented.
pub write_addr_lem :
    (k : ByteOrder)
    → IsDocumented k
    → (a : Address) (s : Slice) → IsTarget a
    → length (wire_of a) ≤ length s.remaining
    → write_addr k a s ≡ (ok (length (wire_of a)), after (wire_of a) s)
write_addr_lem k documented a s h room =
    by_big_endian (λ b. write_addr b a s ≡ (ok (length (wire_of a)), after (wire_of a) s)) k
      documented (write_addr_reference a s h room)

-- A name of more than 255 bytes is refused, with only the type of the address written.
pub write_addr_too_long :
    (k : ByteOrder)
    → IsDocumented k
    → (d : DomainName) (s : Slice) → 255 < length d.name
    → 0 < length s.remaining
    → write_addr k (domain_name d) s
      ≡ (err (io_error invalid_input "domain name too long"), after (3 ∷ []) s)
write_addr_too_long k documented d s long room =
    by_big_endian
      (λ b.
        write_addr b (domain_name d) s
        ≡ (err (io_error invalid_input "domain name too long"), after (3 ∷ []) s))
      k documented (write_addr_too_long_reference d s long room)
