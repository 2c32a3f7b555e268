-- ===== src/Socks5/Address/Sound.antt =====
-- `Address::read_from` on any bytes: it never panics, and what it accepts is the wire format of
-- the address that it returns.
use tache_rs.Prelude.{
  ℕ, zero, suc, ◌+◌, ◌*◌, ◌/◌, ◌%◌, ◌<◌, ◌≡◌, refl, ap, List, [], ◌∷◌, ◌++◌, length, length-append,
  All, arith, Option, none, split_at, split_at-append, take-append, drop-append, Bool-cases, inl,
  inr, ◌==◌, ◌⊎◌, All-append_inv,
}
use tache_rs.Std.Exec.{Outcome, ok, err, panicked}
use tache_rs.Std.Io.{Reader, IoError}
use tache_rs.Std.Net.{IsByte, IsU16}
use tache_rs.Std.Utf8.{is_utf8}
use tache_rs.Crates.Async.{AsyncCrates, IsDocumented, reference, next_u8, next_u16, by_reference}
use tache_rs.Socks5.Reply.{general_failure, address_type_not_supported}
use tache_rs.Socks5.Error.{Error}
use tache_rs.Socks5.Address.{Address, read_ipv4, read_ipv6, read_domain_name, read_typed, read_from}
use tache_rs.Socks5.Address.Wire.{wire, IsAddress, carried}
use tache_rs.Socks5.Address.Read.{stream}

-- The reply that an error of the reader stands for.
abbrev pub IsReadError : Error → Type 0
IsReadError e = (e.reply ≡ general_failure) ⊎ (e.reply ≡ address_type_not_supported)

-- The stream `r` has given the result, and what is left of it.
abbrev pub ReadsBack : Reader → Outcome Error Address × Reader → Type 0
ReadsBack r (ok a, r') =
    (r.bytes ≡ wire a ++ r'.bytes) × IsAddress a × (carried a ≡ a) × (r'.fault ≡ r.fault)
ReadsBack r (err e, r') = IsReadError e
ReadsBack r (panicked, r') = ⊥

pub word_high : (p q : ℕ) → q < 256 → (p * 256 + q) / 256 ≡ p
word_high p q h = omega arith

pub word_low : (p q : ℕ) → q < 256 → (p * 256 + q) % 256 ≡ q
word_low p q h = omega arith

pub word-IsU16 : (p q : ℕ) → p < 256 → q < 256 → IsU16 (p * 256 + q)
word-IsU16 p q h k = omega arith

module _ (spare : ℕ → ℕ) (fault : Option IoError) where
  read_ipv4-ReadsBack :
      (bs : List ℕ)
      → All IsByte bs
      → ReadsBack (stream (1 ∷ bs) fault) (read_ipv4 (reference spare) (stream bs fault))
  unfolding read_ipv4 next_u8 next_u16 wire
  read_ipv4-ReadsBack (a ∷ b ∷ c ∷ d ∷ p ∷ q ∷ rest) h =
      (cc (word_high p q (omega arith), word_low p q (omega arith)), omega arith, refl, refl)
  read_ipv4-ReadsBack _ h = inl refl

  read_ipv6-ReadsBack :
      (bs : List ℕ)
      → All IsByte bs
      → ReadsBack (stream (4 ∷ bs) fault) (read_ipv6 (reference spare) (stream bs fault))
  unfolding read_ipv6 next_u16 wire
  read_ipv6-ReadsBack
        (a ∷ a' ∷ b ∷ b' ∷ c ∷ c' ∷ d ∷ d' ∷ e ∷ e' ∷ f ∷ f' ∷ g ∷ g' ∷ k ∷ k' ∷ p ∷ q ∷ rest) h =
      (
        cc (
          word_high a a' (omega arith),
          word_low a a' (omega arith),
          word_high b b' (omega arith),
          word_low b b' (omega arith),
          word_high c c' (omega arith),
          word_low c c' (omega arith),
          word_high d d' (omega arith),
          word_low d d' (omega arith),
          word_high e e' (omega arith),
          word_low e e' (omega arith),
          word_high f f' (omega arith),
          word_low f f' (omega arith),
          word_high g g' (omega arith),
          word_low g g' (omega arith),
          word_high k k' (omega arith),
          word_low k k' (omega arith),
          word_high p q (omega arith),
          word_low p q (omega arith),
        ),
        omega arith,
        refl,
        refl,
      )
  read_ipv6-ReadsBack _ h = inl refl

-- Either the bytes end before a name of `n` bytes and a port, or they begin with these.
domain_cases :
    (n : ℕ) (bs : List ℕ)
    → (split_at (n + 2) bs ≡ none)
      ⊎ ((name : List ℕ) × (p : ℕ) × (q : ℕ) × (rest : List ℕ) × (bs ≡ name ++ p ∷ q ∷ [] ++ rest)
          × (length name ≡ n))
domain_cases zero [] = inl refl
domain_cases zero (p ∷ []) = inl refl
domain_cases zero (p ∷ q ∷ rest) = inr ([], p, q, rest, refl, refl)
domain_cases (suc n) [] = let e : suc n + 2 ≡ suc (n + 2) = omega arith in inl (rw e)
domain_cases (suc n) (x ∷ bs) = elim (domain_cases n bs) [
  | inl short ↦ let e : suc n + 2 ≡ suc (n + 2) = omega arith in inl (rw (e, short))
  | inr (name, p, q, rest, e, l) ↦
      inr (x ∷ name, p, q, rest, ap (λ (t : List ℕ). x ∷ t) e, ap suc l)
]

module _ (spare : ℕ → ℕ) (fault : Option IoError) where
  domain-ReadsBack :
      (name : List ℕ) (p q : ℕ) (rest : List ℕ)
      → All IsByte (length name ∷ name ++ p ∷ q ∷ [] ++ rest)
      → ReadsBack (stream (3 ∷ length name ∷ name ++ p ∷ q ∷ [] ++ rest) fault) (
          read_domain_name
            (reference spare)
            (stream (length name ∷ name ++ p ∷ q ∷ [] ++ rest) fault))
  unfolding read_domain_name next_u16 wire
  domain-ReadsBack name p q rest h =
      rw
        (
          two_more,
          split_at-append (name ++ p ∷ q ∷ []) rest,
          take-append name (p ∷ q ∷ []),
          drop-append name (p ∷ q ∷ []),
        )
        (elim (Bool-cases (is_utf8 name)) [
          | inl utf8 ↦ rw utf8 (
            cc (word_high p q q_byte, word_low p q q_byte),
            (utf8, name_bytes, omega arith, word-IsU16 p q p_byte q_byte),
            refl,
            refl,
          )
          | inr bad ↦ rw bad (inl refl)
        ])
    where
      two_more : length name + 2 ≡ length (name ++ p ∷ q ∷ [])
      two_more = omega (arith, length-append name (p ∷ q ∷ []))

      front_bytes : All IsByte (name ++ p ∷ q ∷ [])
      front_bytes = (All-append_inv IsByte (name ++ p ∷ q ∷ []) rest h.1).0

      name_bytes : All IsByte name
      name_bytes = (All-append_inv IsByte name (p ∷ q ∷ []) front_bytes).0

      p_byte : p < 256
      p_byte = (All-append_inv IsByte name (p ∷ q ∷ []) front_bytes).1.0

      q_byte : q < 256
      q_byte = (All-append_inv IsByte name (p ∷ q ∷ []) front_bytes).1.1.0

  read_domain_name-ReadsBack :
      (bs : List ℕ)
      → All IsByte bs
      → ReadsBack (stream (3 ∷ bs) fault) (read_domain_name (reference spare) (stream bs fault))
  unfolding read_domain_name
  read_domain_name-ReadsBack [] h = inl refl
  read_domain_name-ReadsBack (len ∷ bs) h = elim (domain_cases len bs) [
    | inl short ↦ rw short (inl refl)
    | inr (name, p, q, rest, e, l) ↦ rw (e, ← l) (domain-ReadsBack name p q rest (rw (e, ← l) at h))
  ]

  read_typed-ReadsBack :
      (t : ℕ) (bs : List ℕ)
      → All IsByte bs
      → ReadsBack (stream (t ∷ bs) fault) (read_typed (reference spare) t (stream bs fault))
  unfolding read_typed
  read_typed-ReadsBack t bs h = elim (Bool-cases (t == 1)) [
    | inl is_v4 ↦ let e : t ≡ 1 = ground arith in rw e (read_ipv4-ReadsBack spare fault bs h)
    | inr not_v4 ↦ elim (Bool-cases (t == 4)) [
      | inl is_v6 ↦ let e : t ≡ 4 = ground arith in rw e (read_ipv6-ReadsBack spare fault bs h)
      | inr not_v6 ↦ elim (Bool-cases (t == 3)) [
        | inl is_domain ↦ let e : t ≡ 3 = ground arith in rw e (read_domain_name-ReadsBack bs h)
        | inr not_domain ↦ rw (not_v4, not_v6, not_domain) (inr refl)
      ]
    ]
  ]

  pub read_from-ReadsBack-reference :
      (bs : List ℕ)
      → All IsByte bs
      → ReadsBack (stream bs fault) (read_from (reference spare) (stream bs fault))
  unfolding read_from
  read_from-ReadsBack-reference [] h = inl refl
  read_from-ReadsBack-reference (t ∷ bs) h = read_typed-ReadsBack t bs h.1

-- Whatever bytes arrive, `read_from` does not panic. When it returns an address, the address is
-- valid, and the bytes that were taken from the stream are exactly its wire format; when it
-- fails, the reply of the error is a general failure or an unsupported type of address. The
-- functions of the crates do what is documented.
pub read_from-ReadsBack :
    (crates : AsyncCrates)
    → IsDocumented crates
    → (bs : List ℕ) (fault : Option IoError) → All IsByte bs
    → ReadsBack (stream bs fault) (read_from crates (stream bs fault))
read_from-ReadsBack crates documented bs fault h =
    by_reference (λ c. ReadsBack (stream bs fault) (read_from c (stream bs fault))) crates
      documented λ spare. read_from-ReadsBack-reference spare fault bs h
