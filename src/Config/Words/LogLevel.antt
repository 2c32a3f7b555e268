-- ===== src/Config/Words/LogLevel.antt =====
-- config.rs: `LogLevel`.
use tache_rs.Prelude.{ℕ, ◌≡◌, refl, List, [], ◌∷◌}
use tache_rs.Std.Exec.{Outcome, ok}
use tache_rs.Std.Text.{text}
use tache_rs.Config.Words.{eq_text, match_word, match_word_sound}

pub data LogLevel : Type 0 where
  info warning error debug silent : LogLevel

unfoldable pub display : LogLevel → List ℕ
display info = text "info"
display warning = text "warning"
display error = text "error"
display debug = text "debug"
display silent = text "silent"

abbrev arms : List (List ℕ × LogLevel)
arms =
    (text "info", info)
    ∷ (text "warning", warning)
    ∷ (text "error", error)
    ∷ (text "debug", debug)
    ∷ (text "silent", silent)
    ∷ []

unfoldable pub from_str : List ℕ → Outcome Unit LogLevel
unfolding match_word
from_str s = match_word arms s

abbrev pub default : LogLevel
default = info

from_str-display : (x : LogLevel) → from_str (display x) ≡ ok x
unfolding from_str display eq_text
from_str-display info = refl
from_str-display warning = refl
from_str-display error = refl
from_str-display debug = refl
from_str-display silent = refl

-- Every value of `LogLevel` is read back from the word that it prints, and no other text is
-- read as it.
pub log_level_words :
    (s : List ℕ) (x : LogLevel)
    → from_str s ≡ ok x
    → (s ≡ display x) × (from_str (display x) ≡ ok x)
unfolding from_str display
log_level_words s x h = (
  match_word_sound display arms s x (refl, (refl, (refl, (refl, (refl, tt))))) h,
  from_str-display x,
)
