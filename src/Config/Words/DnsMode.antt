-- ===== src/Config/Words/DnsMode.antt =====
-- config.rs: `DNSMode`.
use tache_rs.Prelude.{ℕ, ◌≡◌, refl, List, [], ◌∷◌}
use tache_rs.Std.Exec.{Outcome, ok}
use tache_rs.Std.Text.{text}
use tache_rs.Config.Words.{eq_text, match_word, match_word_sound}

pub data DnsMode : Type 0 where
  redir_host fake_ip : DnsMode

unfoldable pub display : DnsMode → List ℕ
display redir_host = text "redir-host"
display fake_ip = text "fake-ip"

abbrev arms : List (List ℕ × DnsMode)
arms = (text "redir-host", redir_host) ∷ (text "fake-ip", fake_ip) ∷ []

unfoldable pub from_str : List ℕ → Outcome Unit DnsMode
unfolding match_word
from_str s = match_word arms s

abbrev pub default : DnsMode
default = redir_host

from_str-display : (x : DnsMode) → from_str (display x) ≡ ok x
unfolding from_str display eq_text
from_str-display redir_host = refl
from_str-display fake_ip = refl

-- Every value of `DNSMode` is read back from the word that it prints, and no other text is read as it.
pub dns_mode_words :
    (s : List ℕ) (x : DnsMode) → from_str s ≡ ok x → (s ≡ display x) × (from_str (display x) ≡ ok x)
unfolding from_str display
dns_mode_words s x h = (match_word_sound display arms s x (refl, (refl, tt)) h, from_str-display x)
