-- ===== src/Tests/Configs.antt =====
-- config.rs: words, and the name servers.
use tache_rs.Prelude.{ℕ, ◌≡◌, refl, List, [], ◌∷◌, ◌++◌, none}
use tache_rs.Std.Exec.{ok}
use tache_rs.Std.Text.{text}
use tache_rs.Samples.{local_target}
use tache_rs.Config.Words.{eq_text}
use tache_rs.Config.Words.Mode
use tache_rs.Config.Words.Mode.{mode_words}
use tache_rs.Config.Words.LogLevel
use tache_rs.Config.Words.LogLevel.{log_level_words}
use tache_rs.Config.Words.DnsMode
use tache_rs.Config.Words.DnsMode.{dns_mode_words}
use tache_rs.Config.Words.InboundKind
use tache_rs.Config.Words.InboundKind.{inbound_kind_words}
use tache_rs.Config.Types.{DnsConfig, empty}
use tache_rs.Config.Dns.{TrustDns}

global_read : Mode.from_str (text "global") ≡ ok Mode.global
unfolding Mode.from_str eq_text
global_read = refl

silent_read : LogLevel.from_str (text "silent") ≡ ok LogLevel.silent
unfolding LogLevel.from_str eq_text
silent_read = refl

fake_ip_read : DnsMode.from_str (text "fake-ip") ≡ ok DnsMode.fake_ip
unfolding DnsMode.from_str eq_text
fake_ip_read = refl

tun_read : InboundKind.from_str (text "tun") ≡ ok InboundKind.tun
unfolding InboundKind.from_str eq_text
tun_read = refl

-- Name servers are numbers here, and a resolver is the list of them.
abbrev pub numbers : TrustDns ℕ ℕ (List ℕ)
numbers = record {
  google = 1 ∷ 2 ∷ [];
  cloudflare = 3 ∷ [];
  cloudflare_tls = 4 ∷ [];
  cloudflare_https = 5 ∷ [];
  quad9 = 6 ∷ [];
  quad9_tls = 7 ∷ [];
  from_ips_clear = λ ips port. ips;
  empty = [];
  add_name_server = λ s r. r ++ s ∷ [];
  parse_ip = λ s. none;
}

abbrev pub two_groups : DnsConfig
two_groups = record {
  ipv6 = none;
  listen = local_target;
  mode = DnsMode.default;
  servers = text "quad9" ∷ text "nowhere" ∷ text "google" ∷ [];
  fallback = [];
}
