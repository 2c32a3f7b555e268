-- ===== src/Std/Parse.antt =====
-- `str::split` on one character, and `str::parse` for unsigned numbers below a limit.
use tache_rs.Prelude.{
  ℕ, zero, suc, ◌+◌, ◌*◌, ◌-◌, ◌/◌, ◌%◌, ◌≤◌, ◌<◌, ◌≡◌, ◌≢◌, refl, ap, ◌∙◌, arith, ◌&&◌, ◌==◌, ltb,
  leb, if◌then◌else◌, true, false, Option, none, some, List, [], ◌∷◌, ◌++◌, All, Bool-cases, inl,
  inr, ◌⊎◌, All-append, length, length-append,
}
use mathlib.Core.Option.{some-injective}
use tache_rs.Std.Int.{ℤ, pos, negsuc}
use tache_rs.Std.Text.{digits, decimal}

-- What stands before the first `c`, and, if there is one, what stands behind it.
unfoldable pub split_once : ℕ → List ℕ → List ℕ × Option (List ℕ)
split_once c [] = ([], none)
split_once c (x ∷ xs) =
    let (front, back) = split_once c xs in if x == c then ([], some xs) else (x ∷ front, back)

-- What stands before and behind the last `c`, if there is one.
abbrev pub rsplit_step : ℕ → ℕ → List ℕ → Option (List ℕ × List ℕ) → Option (List ℕ × List ℕ)
rsplit_step c x xs none = if x == c then some ([], xs) else none
rsplit_step c x xs (some (front, back)) = some (x ∷ front, back)

unfoldable pub rsplit_once : ℕ → List ℕ → Option (List ℕ × List ℕ)
rsplit_once c [] = none
rsplit_once c (x ∷ xs) = rsplit_step c x xs (rsplit_once c xs)

pub rsplit_once-none : (c : ℕ) (s : List ℕ) → All (λ x. x ≢ c) s → rsplit_once c s ≡ none
unfolding rsplit_once
rsplit_once-none c [] h = refl
rsplit_once-none c (x ∷ xs) h =
    let e : (x == c) ≡ false = ground (arith, h.0) in rw (rsplit_once-none c xs h.1, e) refl

pub rsplit_once-append :
    (c : ℕ) (xs ys : List ℕ) → All (λ x. x ≢ c) ys → rsplit_once c (xs ++ c ∷ ys) ≡ some (xs, ys)
unfolding rsplit_once
rsplit_once-append c [] ys h =
    let e : (c == c) ≡ true = ground arith in rw (rsplit_once-none c ys h, e) refl
rsplit_once-append c (x ∷ xs) ys h = rw (rsplit_once-append c xs ys h) refl

-- A digit is taken if the number stays below the limit.
unfoldable pub eat_digits : ℕ → ℕ → List ℕ → Option ℕ
eat_digits limit n [] = some n
eat_digits limit n (c ∷ cs) =
    let rest = eat_digits limit (n * 10 + (c - b'0')) cs in
    if leb b'0' c && leb c b'9' && ltb (n * 10 + (c - b'0')) limit then rest else none

-- A text of a number has a digit, and may have a plus sign.
unfoldable pub parse_below : ℕ → List ℕ → Option ℕ
unfolding eat_digits
parse_below limit [] = none
parse_below limit (c ∷ []) = eat_digits limit 0 (c ∷ [])
parse_below limit (c ∷ cs) =
    if c == b'+' then eat_digits limit 0 cs else eat_digits limit 0 (c ∷ cs)

unfoldable pub parse_u16 : List ℕ → Option ℕ
unfolding parse_below
parse_u16 = parse_below 65536

-- `str::parse` for `i32`: a minus sign, and then a number of at most 2 ^ 31.
abbrev negated : Option ℕ → Option ℤ
negated none = none
negated (some zero) = some (pos zero)
negated (some (suc n)) = some (negsuc n)

abbrev positive : Option ℕ → Option ℤ
positive none = none
positive (some n) = some (pos n)

abbrev minus : List ℕ → Option ℤ
minus [] = none
minus (c ∷ cs) = negated (eat_digits 0x80000001 0 (c ∷ cs))

unfoldable pub parse_i32 : List ℕ → Option ℤ
unfolding parse_below
parse_i32 [] = none
parse_i32 (c ∷ cs) = if c == b'-' then minus cs else positive (parse_below 0x80000000 (c ∷ cs))

pub split_once-append :
    (c : ℕ) (xs ys : List ℕ) → All (λ x. x ≢ c) xs → split_once c (xs ++ c ∷ ys) ≡ (xs, some ys)
unfolding split_once
split_once-append c [] ys h = let e : (c == c) ≡ true = ground arith in rw e refl
split_once-append c (x ∷ xs) ys h =
    let e : (x == c) ≡ false = ground (arith, h.0) in rw (e, split_once-append c xs ys h.1) refl

eat_digit :
    (limit n d : ℕ)
    → d < 10
    → n * 10 + d < limit
    → eat_digits limit n ((d + b'0') ∷ []) ≡ some (n * 10 + d)
unfolding eat_digits
eat_digit limit n d h k =
    let e : d + b'0' - b'0' ≡ d = omega arith in
    let good : (leb b'0' (d + b'0') && leb (d + b'0') b'9' && ltb (n * 10 + d) limit) ≡ true =
      ground arith in
    rw (e, good) refl

eat_digits-append :
    (limit n v : ℕ) (xs ys : List ℕ)
    → eat_digits limit n xs ≡ some v
    → eat_digits limit n (xs ++ ys) ≡ eat_digits limit v ys
unfolding eat_digits
eat_digits-append limit n v [] ys h = ap (λ m. eat_digits limit m ys) (some-injective _ _ h)
eat_digits-append limit n v (x ∷ xs) ys h =
    let test = leb b'0' x && leb x b'9' && ltb (n * 10 + (x - b'0')) limit in
    elim (Bool-cases test) [
      | inl good ↦ rw good (eat_digits-append limit (n * 10 + (x - b'0')) v xs ys (rw good at h))
      | inr bad ↦ let f : none ≡ some v = rw bad at h in cc
    ]

-- The digits of a number are read as the number.
eat_digits-digits :
    (limit fuel n : ℕ) → n < fuel → n < limit → eat_digits limit 0 (digits fuel n) ≡ some n
unfolding digits
eat_digits-digits limit zero n h k = absurd (omega arith)
eat_digits-digits limit (suc fuel) n h k = elim (Bool-cases (ltb n 10)) [
  | inl small ↦
      let lt : n < 10 = ground arith in
      let e : 0 * 10 + n ≡ n = omega arith in
      rw small (eat_digit limit 0 n lt (omega arith) ∙ ap some e)
  | inr large ↦
      let ge : 10 ≤ n = ground arith in
      let e : n / 10 * 10 + n % 10 ≡ n = omega arith in
      rw large (
        eat_digits-append limit 0 (n / 10) (digits fuel (n / 10)) ((n % 10 + b'0') ∷ [])
          (eat_digits-digits limit fuel (n / 10) (omega arith) (omega arith))
        ∙ eat_digit limit (n / 10) (n % 10) (omega arith) (omega arith)
        ∙ ap some e)
]

-- Every character of a number is a digit.
pub digits-IsDigit : (fuel n : ℕ) → All (λ c. (b'0' ≤ c) × (c ≤ b'9')) (digits fuel n)
unfolding digits
digits-IsDigit zero n = tt
digits-IsDigit (suc fuel) n = elim (Bool-cases (ltb n 10)) [
  | inl small ↦ let lt : n < 10 = ground arith in rw small ((omega arith, omega arith), tt)
  | inr large ↦
      let lt : n % 10 < 10 = omega arith in
      rw large (
        All-append _ (digits fuel (n / 10)) _ (digits-IsDigit fuel (n / 10))
          ((omega arith, omega arith), tt))
]

length-digits : (fuel n : ℕ) → 0 < length (digits (suc fuel) n)
unfolding digits
length-digits fuel n = elim (Bool-cases (ltb n 10)) [
  | inl small ↦ rw small (omega arith)
  | inr large ↦
      rw large (omega (arith, length-append (digits fuel (n / 10)) ((n % 10 + b'0') ∷ [])))
]

-- The text of a number below the limit is read as the number.
pub parse_below-decimal : (limit n : ℕ) → n < limit → parse_below limit (decimal n) ≡ some n
unfolding parse_below decimal
parse_below-decimal limit n h =
    read (digits (suc n) n) (eat_digits-digits limit (suc n) n (omega arith) h)
      (digits-IsDigit (suc n) n) (length-digits n n)
  where
    read :
        (cs : List ℕ)
        → eat_digits limit 0 cs ≡ some n
        → All (λ c. (b'0' ≤ c) × (c ≤ b'9')) cs
        → 0 < length cs
        → parse_below limit cs ≡ some n
    read [] e d some_digit = absurd (omega arith)
    read (c ∷ []) e d some_digit = e
    read (c ∷ c' ∷ cs) e d some_digit = let f : (c == b'+') ≡ false = ground (arith, d.0) in rw f e

pub parse_u16-decimal : (n : ℕ) → n < 65536 → parse_u16 (decimal n) ≡ some n
unfolding parse_u16
parse_u16-decimal n h = parse_below-decimal 65536 n h

-- Either there is no `c`, or what stands before the first one has none.
pub split_once-cases :
    (c : ℕ) (s : List ℕ)
    → ((split_once c s ≡ (s, none)) × All (λ x. x ≢ c) s)
      ⊎ ((front : List ℕ) × (back : List ℕ) × (split_once c s ≡ (front, some back))
          × (s ≡ front ++ c ∷ back)
          × All (λ x. x ≢ c) front)
unfolding split_once
split_once-cases c [] = inl (refl, tt)
split_once-cases c (x ∷ xs) = elim (Bool-cases (x == c)) [
  | inl is_c ↦
      let e : x ≡ c = ground arith in inr ([], xs, rw is_c refl, ap (λ (t : ℕ). t ∷ xs) e, tt)
  | inr is_not ↦
      let ne : x ≢ c = ground arith in
      elim (split_once-cases c xs) [
        | inl (e, h) ↦ inl (rw (is_not, e) refl, (ne, h))
        | inr (front, back, e, whole, h) ↦
            inr (x ∷ front, back, rw (is_not, e) refl, ap (λ (t : List ℕ). x ∷ t) whole, (ne, h))
      ]
]

pub split_once-none : (c : ℕ) (s : List ℕ) → All (λ x. x ≢ c) s → split_once c s ≡ (s, none)
unfolding split_once
split_once-none c [] h = refl
split_once-none c (x ∷ xs) h =
    let e : (x == c) ≡ false = ground (arith, h.0) in rw (e, split_once-none c xs h.1) refl
