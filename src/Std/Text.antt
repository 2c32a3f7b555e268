-- ===== src/Std/Text.antt =====
-- Text as bytes, and the decimal form of an unsigned number.
use Prim.Native.Char.{code}
use tache_rs.Prelude.{
  ℕ, zero, suc, ◌+◌, ◌/◌, ◌%◌, ◌≡◌, refl, String, List, [], ◌∷◌, ◌++◌, ltb, if◌then◌else◌,
}

-- The bytes of a text in ASCII.
abbrev pub text : String → List ℕ
text String.[] = []
text (String.◌∷◌ c s) = code c ∷ text s

-- The digits of `n`, if it has no more than the fuel says.
unfoldable pub digits : ℕ → ℕ → List ℕ
digits zero n = []
digits (suc fuel) n =
    let rest = digits fuel (n / 10) in
    if ltb n 10 then (n + b'0') ∷ [] else rest ++ (n % 10 + b'0') ∷ []

-- `Display` of a number; a number has fewer digits than it has units, and one more.
unfoldable pub decimal : ℕ → List ℕ
unfolding digits
decimal n = digits (suc n) n

decimal_port : decimal 8080 ≡ text "8080"
unfolding decimal
decimal_port = refl
