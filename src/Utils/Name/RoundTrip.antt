-- ===== src/Utils/Name/RoundTrip.antt =====
-- A domain name is read back from its text, and what is read was there.
use tache_rs.Prelude.{
  ℕ, suc, subst, ◌≡◌, ◌≢◌, ◌<◌, refl, ap, arith, List, [], ◌∷◌, ◌++◌, All, some, inl, inr,
  append_assoc, Option-cases,
}
use tache_rs.Std.Exec.{Outcome, ok, err}
use tache_rs.Std.Text.{decimal, digits}
use tache_rs.Std.Parse.{
  split_once, split_once-append, split_once-none, split_once-cases, parse_u16, parse_u16-decimal,
  digits-IsDigit,
}
use tache_rs.Utils.{DomainName}
use tache_rs.Utils.Name.{
  DomainNameError, domain_name_error, from_str, display, serialize_text, visit_str, serialize_pair,
  deserialize_pair,
}

abbrev pub NoColon : List ℕ → Type 0
NoColon s = All (λ c. c ≢ b':') s

All-imp : (P Q : ℕ → Type 0) (xs : List ℕ) → ((x : ℕ) → P x → Q x) → All P xs → All Q xs
All-imp P Q [] f h = tt
All-imp P Q (x ∷ xs) f h = (f x h.0, All-imp P Q xs f h.1)

pub decimal-NoColon : (n : ℕ) → NoColon (decimal n)
unfolding decimal
decimal-NoColon n = All-imp _ _ (digits (suc n) n) (λ c h. omega arith) (digits-IsDigit (suc n) n)

-- A name without a colon and a port below 65536 are read back from their text; a colon behind
-- the port ends it, and whatever stands behind that colon changes nothing. The serialized forms
-- are read back too.
pub name_round_trip :
    (d : DomainName) (junk : List ℕ)
    → NoColon d.name
    → d.port < 65536
    → (from_str (display d) ≡ ok d)
      × (from_str (display d ++ b':' ∷ junk) ≡ ok d)
      × (visit_str (serialize_text d) ≡ ok d)
      × (deserialize_pair (serialize_pair d) ≡ d)
unfolding from_str display serialize_text visit_str serialize_pair deserialize_pair
name_round_trip d junk plain small = (alone, followed, alone, refl)
  where
    alone : from_str (display d) ≡ ok d
    alone =
        rw
          (
            split_once-append b':' d.name (decimal d.port) plain,
            split_once-none b':' (decimal d.port) (decimal-NoColon d.port),
            parse_u16-decimal d.port small,
          )
          refl

    followed : from_str (display d ++ b':' ∷ junk) ≡ ok d
    followed =
        rw
          (
            append_assoc d.name (b':' ∷ decimal d.port) (b':' ∷ junk),
            split_once-append b':' d.name (decimal d.port ++ b':' ∷ junk) plain,
            split_once-append b':' (decimal d.port) junk (decimal-NoColon d.port),
            parse_u16-decimal d.port small,
          )
          refl

-- The text `s` is `d`'s name, a colon, and a text whose first piece is `d`'s port.
abbrev pub IsTextOf : List ℕ → DomainName → Type 0
IsTextOf s d =
    (back : List ℕ) × (s ≡ d.name ++ b':' ∷ back)
    × NoColon d.name
    × (parse_u16 (split_once b':' back).0 ≡ some d.port)

abbrev value_or : DomainName → Outcome DomainNameError DomainName → DomainName
value_or d (ok x) = x
value_or d _ = d

-- A text that is read as a name is that name, which has no colon, then a colon, and then a text
-- which has the port as its first piece.
pub name_sound : (s : List ℕ) (d : DomainName) → from_str s ≡ ok d → IsTextOf s d
unfolding from_str
name_sound s d h = elim (split_once-cases b':' s) [
  | inl (e, plain) ↦ let f : err domain_name_error ≡ ok d = rw e at h in cc
  | inr (front, back, e, whole, plain) ↦ elim (Option-cases (parse_u16 (split_once b':' back).0)) [
    | inl bad ↦ let f : err domain_name_error ≡ ok d = rw (e, bad) at h in cc
    | inr (port, good) ↦
        let f : ok (record { name = front; port = port }) ≡ ok d = rw (e, good) at h in
        subst (IsTextOf s) (ap (value_or d) f) (back, whole, plain, good)
  ]
]
