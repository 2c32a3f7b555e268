-- ===== src/Config/Words.antt =====
-- config.rs: the words for modes, levels and kinds, as they are printed and read.
pub mod Mode
pub mod LogLevel
pub mod DnsMode
pub mod InboundKind
use tache_rs.Prelude.{
  ℕ, ◌≡◌, ◌≢◌, refl, sym, ap, ◌∙◌, arith, Bool, true, false, ◌&&◌, ◌==◌, if◌then◌else◌, List, [],
  ◌∷◌, All, Bool-cases, inl, inr,
}
use tache_rs.Std.Exec.{Outcome, ok, err}

unfoldable pub eq_text : List ℕ → List ℕ → Bool
eq_text [] [] = true
eq_text [] (y ∷ ys) = false
eq_text (x ∷ xs) [] = false
eq_text (x ∷ xs) (y ∷ ys) = x == y && eq_text xs ys

pub eq_text_sound : (xs ys : List ℕ) → eq_text xs ys ≡ true → xs ≡ ys
unfolding eq_text
eq_text_sound [] [] h = refl
eq_text_sound [] (y ∷ ys) h = cc
eq_text_sound (x ∷ xs) [] h = cc
eq_text_sound (x ∷ xs) (y ∷ ys) h = elim (Bool-cases (x == y)) [
  | inl same ↦
      let e : x ≡ y = ground arith in let es : xs ≡ ys = eq_text_sound xs ys (rw same at h) in cc
  | inr other ↦ let f : false ≡ true = rw other at h in cc
]

eq_text_same : (xs : List ℕ) → eq_text xs xs ≡ true
unfolding eq_text
eq_text_same [] = refl
eq_text_same (x ∷ xs) = let rest = eq_text_same xs in ground arith

pub eq_text_differ : (xs ys : List ℕ) → eq_text xs ys ≡ false → xs ≢ ys
eq_text_differ xs ys h e =
    let f : true ≡ false = sym (eq_text_same ys) ∙ ap (λ (t : List ℕ). eq_text t ys) (sym e) ∙ h in
    cc

module _ {A : Type 0} where
  -- `match s { "a" => Ok(A), "b" => Ok(B), _ => Err(()) }`
  unfoldable pub match_word : List (List ℕ × A) → List ℕ → Outcome Unit A
  match_word [] s = err tt
  match_word ((word, a) ∷ arms) s =
      let rest = match_word arms s in if eq_text s word then ok a else rest

  abbrev value_or : A → Outcome Unit A → A
  value_or d (ok a) = a
  value_or d _ = d

  pub match_word_sound :
      (display : A → List ℕ) (arms : List (List ℕ × A)) (s : List ℕ) (a : A)
      → All (λ arm. arm.0 ≡ display arm.1) arms
      → match_word arms s ≡ ok a
      → s ≡ display a
  unfolding match_word
  match_word_sound display [] s a h e = let f : err tt ≡ ok a = e in cc
  match_word_sound display ((word, b) ∷ arms) s a h e = elim (Bool-cases (eq_text s word)) [
    | inl same ↦
        let f : ok b ≡ ok a = rw same at e in
        eq_text_sound s word same ∙ h.0 ∙ ap display (ap (value_or a) f)
    | inr other ↦ match_word_sound display arms s a h.1 (rw other at e)
  ]
