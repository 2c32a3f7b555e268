-- ===== src/Config/Words/Mode.antt =====
-- config.rs: `Mode`.
use tache_rs.Prelude.{ℕ, ◌≡◌, refl, List, [], ◌∷◌}
use tache_rs.Std.Exec.{Outcome, ok}
use tache_rs.Std.Text.{text}
use tache_rs.Config.Words.{eq_text, match_word, match_word_sound}

pub data Mode : Type 0 where
  rule global direct : Mode

unfoldable pub display : Mode → List ℕ
display rule = text "rule"
display global = text "global"
display direct = text "direct"

abbrev arms : List (List ℕ × Mode)
arms = (text "rule", rule) ∷ (text "global", global) ∷ (text "direct", direct) ∷ []

unfoldable pub from_str : List ℕ → Outcome Unit Mode
unfolding match_word
from_str s = match_word arms s

abbrev pub default : Mode
default = direct

from_str-display : (x : Mode) → from_str (display x) ≡ ok x
unfolding from_str display eq_text
from_str-display rule = refl
from_str-display global = refl
from_str-display direct = refl

-- Every value of `Mode` is read back from the word that it prints, and no other text is read as it.
pub mode_words :
    (s : List ℕ) (x : Mode) → from_str s ≡ ok x → (s ≡ display x) × (from_str (display x) ≡ ok x)
unfolding from_str display
mode_words s x h =
    (match_word_sound display arms s x (refl, (refl, (refl, tt))) h, from_str-display x)
