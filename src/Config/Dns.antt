-- ===== src/Config/Dns.antt =====
-- config.rs: `get_dns_config`. The groups of name servers and the resolver's configuration are those
-- of the crate trust-dns, and `IpAddr`'s own parser reads an address: these are parameters.
pub mod Servers
use tache_rs.Prelude.{ℕ, ◌≡◌, refl, ap, if◌then◌else◌, List, [], ◌∷◌, ◌++◌, Option, none, some}
use tache_rs.Std.Text.{text}
use tache_rs.Config.Words.{eq_text}
use tache_rs.Config.Types.{Config, DnsConfig}

-- Name servers, addresses, and the configuration of a resolver, as far as the code looks at them.
pub record TrustDns (NameServer Ip Resolver : Type 0) : Type 0 where
  pub google : List NameServer
  pub cloudflare : List NameServer
  pub cloudflare_tls : List NameServer
  pub cloudflare_https : List NameServer
  pub quad9 : List NameServer
  pub quad9_tls : List NameServer
  pub from_ips_clear : List Ip → ℕ → List NameServer
  pub empty : Resolver
  pub add_name_server : NameServer → Resolver → Resolver
  pub parse_ip : List ℕ → Option Ip

module _ {NameServer Ip Resolver : Type 0} (dns : TrustDns NameServer Ip Resolver) where
  abbrev pub clear : Option Ip → Option (List NameServer)
  clear none = none
  clear (some ip) = some (dns.from_ips_clear (ip ∷ []) 53)

  -- The group that a word of the configuration stands for.
  unfoldable pub group : List ℕ → Option (List NameServer)
  unfolding eq_text
  group address =
      if eq_text address (text "google")
      then some dns.google
      else if eq_text address (text "cloudflare")
      then some dns.cloudflare
      else if eq_text address (text "cloudflare_tls")
      then some dns.cloudflare_tls
      else if eq_text address (text "cloudflare_https")
      then some dns.cloudflare_https
      else if eq_text address (text "quad9")
      then some dns.quad9
      else if eq_text address (text "quad9_tls")
      then some dns.quad9_tls
      else clear (dns.parse_ip address)

  -- `for name_server in config.iter().cloned()`
  unfoldable pub add_all : List NameServer → Resolver → Resolver
  add_all [] r = r
  add_all (s ∷ ss) r = add_all ss (dns.add_name_server s r)

  abbrev pub add_group : Option (List NameServer) → Resolver → Resolver
  add_group none r = r
  add_group (some ss) r = add_all ss r

  -- `for address in servers`
  unfoldable pub add_servers : List (List ℕ) → Resolver → Resolver
  unfolding group add_all
  add_servers [] r = r
  add_servers (address ∷ servers) r = add_servers servers (add_group (group address) r)

  abbrev resolver_of : Option DnsConfig → Option Resolver
  resolver_of none = none
  resolver_of (some ds) = some (add_servers ds.servers dns.empty)

  unfoldable pub get_dns_config : Config → Option Resolver
  unfolding add_servers
  get_dns_config c = resolver_of c.dns
