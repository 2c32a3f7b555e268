-- ===== src/Config/Dns/Servers.antt =====
-- config.rs: which name servers the words of a configuration stand for.
use tache_rs.Prelude.{
  ℕ, ◌≡◌, ◌≢◌, refl, sym, ap, ◌∙◌, List, [], ◌∷◌, ◌++◌, Option, none, some, All, take, drop,
  Bool-cases, inl, inr,
}
use mathlib.Core.List.{foldl, foldl-append}
use tache_rs.Std.Text.{text}
use tache_rs.Config.Words.{eq_text, eq_text_sound, eq_text_differ}
use tache_rs.Config.Types.{Config, DnsConfig}
use tache_rs.Config.Dns.{TrustDns, clear, group, add_all, add_group, add_servers, get_dns_config}

module _ {NameServer Ip Resolver : Type 0} (dns : TrustDns NameServer Ip Resolver) where
  -- The names of the groups, and their servers.
  abbrev pub groups : List (List ℕ × List NameServer)
  groups =
      (text "google", dns.google)
      ∷ (text "cloudflare", dns.cloudflare)
      ∷ (text "cloudflare_tls", dns.cloudflare_tls)
      ∷ (text "cloudflare_https", dns.cloudflare_https)
      ∷ (text "quad9", dns.quad9)
      ∷ (text "quad9_tls", dns.quad9_tls)
      ∷ []

  -- The word is the name of one of the groups, whose servers it stands for; or it is none of the
  -- names and an address, and stands for that at port 53; or it is neither, and stands for none.
  pub data StandsFor (word : List ℕ) : List NameServer → Type 0 where
    named :
        (before : List (List ℕ × List NameServer)) (servers : List NameServer)
        (after : List (List ℕ × List NameServer))
        → groups ≡ before ++ (word, servers) ∷ after
        → StandsFor word servers
    address :
        (ip : Ip)
        → All (λ g. word ≢ g.0) groups
        → dns.parse_ip word ≡ some ip
        → StandsFor word (dns.from_ips_clear (ip ∷ []) 53)
    unknown : All (λ g. word ≢ g.0) groups → dns.parse_ip word ≡ none → StandsFor word []

  -- The servers of the words one after the other.
  pub data AllStandFor : List (List ℕ) → List NameServer → Type 0 where
    no_word : AllStandFor [] []
    first_word :
        (word : List ℕ) (servers : List NameServer) (words : List (List ℕ)) (more : List NameServer)
        → StandsFor word servers
        → AllStandFor words more
        → AllStandFor (word ∷ words) (servers ++ more)

  abbrev servers_of : Option (List NameServer) → List NameServer
  servers_of none = []
  servers_of (some ss) = ss

  clear-StandsFor :
      (word : List ℕ) (o : Option Ip)
      → All (λ g. word ≢ g.0) groups
      → dns.parse_ip word ≡ o
      → StandsFor word (servers_of (clear dns o))
  clear-StandsFor word none other e = unknown other e
  clear-StandsFor word (some ip) other e = address ip other e

  group-StandsFor : (word : List ℕ) → StandsFor word (servers_of (group dns word))
  unfolding group eq_text
  group-StandsFor word = elim (Bool-cases (eq_text word (text "google"))) [
    | inl is_google ↦
        rw (eq_text_sound word (text "google") is_google)
          (named ([]) dns.google (drop 1 groups) refl)
    | inr not_google ↦ elim (Bool-cases (eq_text word (text "cloudflare"))) [
      | inl is_cloudflare ↦
          rw (eq_text_sound word (text "cloudflare") is_cloudflare)
            (named (take 1 groups) dns.cloudflare (drop 2 groups) refl)
      | inr not_cloudflare ↦ elim (Bool-cases (eq_text word (text "cloudflare_tls"))) [
        | inl is_cloudflare_tls ↦
            rw (eq_text_sound word (text "cloudflare_tls") is_cloudflare_tls)
              (named (take 2 groups) dns.cloudflare_tls (drop 3 groups) refl)
        | inr not_cloudflare_tls ↦ elim (Bool-cases (eq_text word (text "cloudflare_https"))) [
          | inl is_cloudflare_https ↦
              rw (eq_text_sound word (text "cloudflare_https") is_cloudflare_https)
                (named (take 3 groups) dns.cloudflare_https (drop 4 groups) refl)
          | inr not_cloudflare_https ↦ elim (Bool-cases (eq_text word (text "quad9"))) [
            | inl is_quad9 ↦
                rw (eq_text_sound word (text "quad9") is_quad9)
                  (named (take 4 groups) dns.quad9 (drop 5 groups) refl)
            | inr not_quad9 ↦ elim (Bool-cases (eq_text word (text "quad9_tls"))) [
              | inl is_quad9_tls ↦
                  rw (eq_text_sound word (text "quad9_tls") is_quad9_tls)
                    (named (take 5 groups) dns.quad9_tls (drop 6 groups) refl)
              | inr not_quad9_tls ↦
                  rw
                    (
                      not_google, not_cloudflare, not_cloudflare_tls, not_cloudflare_https,
                      not_quad9, not_quad9_tls,
                    )
                    (clear-StandsFor word (dns.parse_ip word)
                      (
                        eq_text_differ word (text "google") not_google,
                        (
                          eq_text_differ word (text "cloudflare") not_cloudflare,
                          (
                            eq_text_differ word (text "cloudflare_tls") not_cloudflare_tls,
                            (
                              eq_text_differ word (text "cloudflare_https") not_cloudflare_https,
                              (
                                eq_text_differ word (text "quad9") not_quad9,
                                (eq_text_differ word (text "quad9_tls") not_quad9_tls, tt),
                              ),
                            ),
                          ),
                        ),
                      )
                      refl)
            ]
          ]
        ]
      ]
    ]
  ]

  abbrev add : Resolver → NameServer → Resolver
  add r s = dns.add_name_server s r

  add_all-foldl : (ss : List NameServer) (r : Resolver) → add_all dns ss r ≡ foldl add r ss
  unfolding add_all
  add_all-foldl [] r = refl
  add_all-foldl (s ∷ ss) r = add_all-foldl ss (dns.add_name_server s r)

  add_group-foldl :
      (o : Option (List NameServer)) (r : Resolver) → add_group dns o r ≡ foldl add r (servers_of o)
  add_group-foldl none r = refl
  add_group-foldl (some ss) r = add_all-foldl ss r

  add_servers_lem :
      (words : List (List ℕ)) (r : Resolver)
      → (servers : List NameServer) × AllStandFor words servers
        × (add_servers dns words r ≡ foldl add r servers)
  unfolding add_servers
  add_servers_lem [] r = ([], no_word, refl)
  add_servers_lem (word ∷ words) r =
      let now = servers_of (group dns word) in
      let (more, stand, e) = add_servers_lem words (add_group dns (group dns word) r) in
      (
        now ++ more,
        first_word word now words more (group-StandsFor word) stand,
        e
            ∙ ap (λ (r : Resolver). foldl add r more) (add_group-foldl (group dns word) r)
            ∙ sym (foldl-append add r now more),
      )

  pub get_dns_config_lem :
      (c : Config) (ds : DnsConfig)
      → (get_dns_config dns (record c { dns = none }) ≡ none)
        × ((servers : List NameServer) × AllStandFor ds.servers servers
            × (get_dns_config dns (record c { dns = some ds })
                ≡ some (foldl (λ r s. dns.add_name_server s r) dns.empty servers)))
  unfolding get_dns_config
  get_dns_config_lem c ds =
      let (servers, stand, e) = add_servers_lem ds.servers dns.empty in
      (refl, (servers, stand, ap some e))
