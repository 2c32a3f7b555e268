-- ===== src/Config/Words/InboundKind.antt =====
-- config.rs: `InboundKind`.
use tache_rs.Prelude.{ℕ, ◌≡◌, refl, List, [], ◌∷◌}
use tache_rs.Std.Exec.{Outcome, ok}
use tache_rs.Std.Text.{text}
use tache_rs.Config.Words.{eq_text, match_word, match_word_sound}

pub data InboundKind : Type 0 where
  http socks5 redir tun : InboundKind

unfoldable pub display : InboundKind → List ℕ
display http = text "http"
display socks5 = text "socks5"
display redir = text "redir"
display tun = text "tun"

abbrev arms : List (List ℕ × InboundKind)
arms =
    (text "http", http) ∷ (text "socks5", socks5) ∷ (text "redir", redir) ∷ (text "tun", tun) ∷ []

unfoldable pub from_str : List ℕ → Outcome Unit InboundKind
unfolding match_word
from_str s = match_word arms s

from_str-display : (x : InboundKind) → from_str (display x) ≡ ok x
unfolding from_str display eq_text
from_str-display http = refl
from_str-display socks5 = refl
from_str-display redir = refl
from_str-display tun = refl

-- Every value of `InboundKind` is read back from the word that it prints, and no other text is read as it.
pub inbound_kind_words :
    (s : List ℕ) (x : InboundKind)
    → from_str s ≡ ok x
    → (s ≡ display x) × (from_str (display x) ≡ ok x)
unfolding from_str display
inbound_kind_words s x h =
    (match_word_sound display arms s x (refl, (refl, (refl, (refl, tt)))) h, from_str-display x)
