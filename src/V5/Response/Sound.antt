-- ===== src/V5/Response/Sound.antt =====
-- `read_response` on any bytes: an address is given for a response of success alone, and then for each.
use tache_rs.Prelude.{
  ℕ, ◌≡◌, sym, ap, ◌∙◌, List, [], ◌∷◌, ◌++◌, append_assoc, length, All, All-append_inv, arith,
  Option, Bool-cases, inl, inr, ◌==◌, split_at-cases, take, drop, take-append-drop, length-take,
  split_at, split_at-append, none, ◌⊎◌, subst,
}
use tache_rs.Std.Exec.{Outcome, ok, err, panicked, continue, pure, ◌>>=◌}
use tache_rs.Std.Io
use tache_rs.Std.Io.{Reader, IoError}
use tache_rs.Std.Net.{IsByte}
use tache_rs.Std.Utf8.{is_utf8}
use tache_rs.Std.Tcp.{TcpStream}
use tache_rs.Crates.ByteOrder.{ByteOrder, IsDocumented, big_endian, read_number}
use tache_rs.Utils.{Address, domain_name}
use tache_rs.Socks5.Address.Wire.{wire}
use tache_rs.Socks5.Address.Read.{stream}
use tache_rs.Socks5.Address.Sound.{word_high, word_low, word-IsU16}
use tache_rs.V5.Format.{wire_of, IsTarget, received}
use tache_rs.V5.ReadAddr.{ipv4-octets}
use tache_rs.V5.Wire.{
  read_v4, read_v6, read_domain, read_kind, read_addr, parse_response, read_response, from_utf8,
}
use tache_rs.V5.Response.{success, response-Reads, response_success}

-- The stream of `bs` has given the result, and what is left of it.
abbrev Accepts : (Address → List ℕ) → List ℕ → Outcome IoError Address × Reader → Type 0
Accepts packet bs (ok a, r) = (bs ≡ packet a ++ r.bytes) × IsTarget a
Accepts packet bs (err e, r) = Unit
Accepts packet bs (panicked, r) = ⊥

module _ (fault : Option IoError) where
  read_v4-Accepts :
      (bs : List ℕ)
      → All IsByte bs
      → Accepts wire_of (1 ∷ bs) (read_v4 big_endian Io.read_exact (stream bs fault))
  unfolding read_v4 wire
  read_v4-Accepts (a ∷ b ∷ c ∷ d ∷ p ∷ q ∷ rest) h = (
    cc (
      ipv4-octets a b c d (omega arith) (omega arith) (omega arith) (omega arith),
      word_high p q (omega arith),
      word_low p q (omega arith),
    ),
    omega arith,
  )
  read_v4-Accepts _ h = tt

  read_v6-Accepts :
      (bs : List ℕ)
      → All IsByte bs
      → Accepts wire_of (4 ∷ bs) (read_v6 big_endian Io.read_exact (stream bs fault))
  unfolding read_v6 wire
  read_v6-Accepts
        (a ∷ a' ∷ b ∷ b' ∷ c ∷ c' ∷ d ∷ d' ∷ e ∷ e' ∷ f ∷ f' ∷ g ∷ g' ∷ k ∷ k' ∷ p ∷ q ∷ rest) h =
      (
        cc (
          word_high a a' (omega arith),
          word_low a a' (omega arith),
          word_high b b' (omega arith),
          word_low b b' (omega arith),
          word_high c c' (omega arith),
          word_low c c' (omega arith),
          word_high d d' (omega arith),
          word_low d d' (omega arith),
          word_high e e' (omega arith),
          word_low e e' (omega arith),
          word_high f f' (omega arith),
          word_low f f' (omega arith),
          word_high g g' (omega arith),
          word_low g g' (omega arith),
          word_high k k' (omega arith),
          word_low k k' (omega arith),
          word_high p q (omega arith),
          word_low p q (omega arith),
        ),
        omega arith,
      )
  read_v6-Accepts _ h = tt

  -- A name of the length that was read, and what follows it.
  name-Accepts :
      (name : List ℕ) (rest : List ℕ)
      → All IsByte (length name ∷ (name ++ rest))
      → Accepts wire_of (3 ∷ length name ∷ (name ++ rest)) (
          continue (from_utf8 name (stream rest fault)) λ name.
            read_number Reader Io.read_exact 2 >>= λ port.
            pure (domain_name (record { name = name; port = port })))
  unfolding from_utf8 wire
  name-Accepts name (p ∷ q ∷ rest) h = elim (Bool-cases (is_utf8 name)) [
    | inr bad ↦ rw bad tt
    | inl utf8 ↦
        let (name_bytes, (p_byte, (q_byte, others))) =
          All-append_inv IsByte name (p ∷ q ∷ rest) h.1 in
        rw utf8 (
          cc (word_high p q q_byte, word_low p q q_byte, append_assoc name (p ∷ q ∷ []) rest),
          (utf8, name_bytes, omega arith, word-IsU16 p q p_byte q_byte),
        )
  ]
  name-Accepts name _ h = elim (Bool-cases (is_utf8 name)) [
    | inr bad ↦ rw bad tt
    | inl utf8 ↦ rw utf8 tt
  ]

  name_cases :
      (n : ℕ) (bs : List ℕ)
      → (split_at n bs ≡ none)
        ⊎ ((name : List ℕ) × (rest : List ℕ) × (bs ≡ name ++ rest) × (length name ≡ n))
  name_cases n bs = elim (split_at-cases n bs) [
    | inl (short, less) ↦ inl short
    | inr (e, enough) ↦
        inr (take n bs, drop n bs, sym (take-append-drop n bs), omega (arith, length-take n bs))
  ]

  read_domain-Accepts :
      (bs : List ℕ)
      → All IsByte bs
      → Accepts wire_of (3 ∷ bs) (read_domain big_endian Io.read_exact (stream bs fault))
  unfolding read_domain
  read_domain-Accepts [] h = tt
  read_domain-Accepts (n ∷ bs) h = elim (name_cases n bs) [
    | inl short ↦ rw short tt
    | inr (name, rest, e, l) ↦
        rw (e, ← l, split_at-append name rest) (name-Accepts name rest (rw (e, ← l) at h))
  ]

  read_kind-Accepts :
      (kind : ℕ) (bs : List ℕ)
      → All IsByte bs
      → Accepts wire_of (kind ∷ bs) (read_kind big_endian Io.read_exact kind (stream bs fault))
  unfolding read_kind
  read_kind-Accepts kind bs h = elim (Bool-cases (kind == 1)) [
    | inl is_v4 ↦ let e : kind ≡ 1 = ground arith in rw e (read_v4-Accepts bs h)
    | inr not_v4 ↦ elim (Bool-cases (kind == 3)) [
      | inl is_domain ↦ let e : kind ≡ 3 = ground arith in rw e (read_domain-Accepts bs h)
      | inr not_domain ↦ elim (Bool-cases (kind == 4)) [
        | inl is_v6 ↦ let e : kind ≡ 4 = ground arith in rw e (read_v6-Accepts bs h)
        | inr not_v6 ↦ rw (not_v4, not_domain, not_v6) tt
      ]
    ]
  ]

  read_addr-Accepts :
      (bs : List ℕ)
      → All IsByte bs
      → Accepts wire_of bs (read_addr big_endian Io.read_exact (stream bs fault))
  unfolding read_addr
  read_addr-Accepts [] h = tt
  read_addr-Accepts (kind ∷ bs) h = read_kind-Accepts kind bs h.1

  with_front :
      (front bs : List ℕ) (r : Outcome IoError Address × Reader)
      → Accepts wire_of bs r
      → Accepts (λ a. front ++ wire_of a) (front ++ bs) r
  with_front front bs (ok a, r) h =
      (ap (λ (l : List ℕ). front ++ l) h.0 ∙ sym (append_assoc front (wire_of a) r.bytes), h.1)
  with_front front bs (err e, r) h = tt
  with_front front bs (panicked, r) h = h

  parse_response-Accepts :
      (bs : List ℕ)
      → All IsByte bs
      → Accepts success bs (parse_response big_endian Io.read_exact (stream bs fault))
  unfolding parse_response
  parse_response-Accepts (v ∷ code ∷ reserved ∷ bs) h = elim (Bool-cases (v == 5)) [
    | inr bad ↦ rw bad tt
    | inl good ↦ elim (Bool-cases (code == 0)) [
      | inr failed ↦ rw (good, failed) tt
      | inl granted ↦ elim (Bool-cases (reserved == 0)) [
        | inr other ↦ rw (good, granted, other) tt
        | inl zero ↦
            let ev : v ≡ 5 = ground arith in
            let ec : code ≡ 0 = ground arith in
            let er : reserved ≡ 0 = ground arith in
            rw (ev, ec, er)
              (with_front (5 ∷ 0 ∷ 0 ∷ []) bs (read_addr big_endian Io.read_exact (stream bs fault))
                (read_addr-Accepts bs h.1.1.1))
      ]
    ]
  ]
  parse_response-Accepts (v ∷ code ∷ []) h = elim (Bool-cases (v == 5)) [
    | inr bad ↦ rw bad tt
    | inl good ↦ elim (Bool-cases (code == 0)) [
      | inr failed ↦ rw (good, failed) tt
      | inl granted ↦ rw (good, granted) tt
    ]
  ]
  parse_response-Accepts (v ∷ []) h = elim (Bool-cases (v == 5)) [
    | inr bad ↦ rw bad tt
    | inl good ↦ rw good tt
  ]
  parse_response-Accepts [] h = tt

-- What `read_response` makes of the stream `t`: nothing is sent, and an address is given just where a
-- response of success with it has arrived, of which all is taken, and perhaps more.
abbrev pub IsRead : TcpStream → Outcome IoError Address × TcpStream → Type 0
IsRead t (ok a, u) =
    (u.output ≡ t.output)
    × IsTarget a
    × ((lost : List ℕ) × (t.input.bytes ≡ success a ++ (lost ++ u.input.bytes)))
IsRead t (err e, u) =
    (u.output ≡ t.output)
    × (¬ ((a : Address) × (rest : List ℕ) × IsTarget a × (t.input.bytes ≡ success a ++ rest)))
IsRead t (panicked, u) = ⊥

agrees :
    (t : TcpStream) (o : Outcome IoError Address) (u : TcpStream)
    (p : Outcome IoError Address × Reader) (lost : List ℕ)
    → Accepts success t.input.bytes p
    → o ≡ p.0
    → u.output ≡ t.output
    → lost ++ u.input.bytes ≡ p.1.bytes
    → ((a : Address) (rest : List ℕ)
        → IsTarget a
        → t.input.bytes ≡ success a ++ rest
        → o ≡ ok (received a))
    → IsRead t (o, u)
agrees t o u (ok a, r) lost h e same left converse =
    subst (λ x. IsRead t (x, u)) (sym e)
      (same, h.1, (lost, h.0 ∙ ap (λ (l : List ℕ). success a ++ l) (sym left)))
agrees t o u (err x, r) lost h e same left converse =
    subst (λ x. IsRead t (x, u)) (sym e)
      (
        same,
        λ (a, rest, valid, begins).
            let f : err x ≡ ok (received a) = sym e ∙ converse a rest valid begins in cc,
      )
agrees t o u (panicked, r) lost h e same left converse = elim h [ ]

-- Whatever bytes arrive and however they are cut, `read_response` does not panic and sends
-- nothing. It gives an address only if the bytes begin with the response of success that holds
-- it, which is valid, and it has taken that response and perhaps more; it fails only if they
-- begin with no response of success with a valid address. The functions of the crates do what
-- is documented.
pub read_response-IsRead :
    (k : ByteOrder)
    → IsDocumented k
    → (t : TcpStream) → All IsByte t.input.bytes
    → IsRead t (read_response k t)
read_response-IsRead k documented t h =
    let r = response-Reads k documented t in
    agrees t (read_response k t).0 (read_response k t).1
      (parse_response big_endian Io.read_exact t.input) r.lost
      (parse_response-Accepts t.input.fault t.input.bytes h) r.result r.sent r.left
      (λ a rest valid begins. (response_success k documented a rest t valid begins).0)
