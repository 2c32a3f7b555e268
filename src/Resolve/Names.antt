-- ===== src/Resolve/Names.antt =====
-- dns_resolver.rs: what `resolve` gives.
use tache_rs.Prelude.{
  ℕ, ◌≡◌, refl, ap, subst, map, Option, none, some, List, [], ◌∷◌, ◌⊎◌, inl, inr, length, ◌<◌,
  arith,
}
use tache_rs.Std.Exec.{Outcome, ok, err, panicked}
use tache_rs.Std.Io.{IoError}
use tache_rs.Std.Net.{SocketAddr}
use tache_rs.Config.Types.{Config, DnsConfig}
use tache_rs.Config.Dns.{TrustDns, get_dns_config}
use tache_rs.Config.Dns.Servers.{AllStandFor, get_dns_config_lem}
use mathlib.Core.List.{foldl}
use tache_rs.Resolve.{
  created, of_system, ResolverCrate, ResolveError, dns_resolve_error, resolved_to_empty, Context,
  create_resolver, push_addrs, looked_up, new, new_dns, dns_query_cache, with_resolver, resolve,
}

module _ {Conf Opts Ip R : Type 0} (dns : ResolverCrate Conf Opts Ip R) where
  -- What a resolution may give, by the answer of the lookup: each of its addresses, in order, with
  -- the port, and at least one; or an error that tells whether the lookup failed or found nothing.
  abbrev pub IsResolution : List ℕ ⊎ List Ip → ℕ → Outcome ResolveError (List SocketAddr) → Type 0
  IsResolution answer port (ok addrs) =
      (ips : List Ip) × (answer ≡ inr ips)
      × (addrs ≡ map (λ ip. dns.socket_addr ip port) ips)
      × (0 < length addrs)
  IsResolution answer port (err (dns_resolve_error e)) = answer ≡ inl e
  IsResolution answer port (err resolved_to_empty) = answer ≡ inr []
  IsResolution answer port panicked = ⊥

  push_addrs-map :
      (ips : List Ip) (port : ℕ) → push_addrs dns ips port ≡ map (λ ip. dns.socket_addr ip port) ips
  push_addrs-map [] port = refl
  push_addrs-map (ip ∷ ips) port =
      ap (λ (l : List SocketAddr). dns.socket_addr ip port ∷ l) (push_addrs-map ips port)

  looked_up-IsResolution :
      (answer : List ℕ ⊎ List Ip) (port : ℕ) → IsResolution answer port (looked_up dns answer port)
  looked_up-IsResolution (inl e) port = refl
  looked_up-IsResolution (inr []) port = refl
  looked_up-IsResolution (inr (ip ∷ ips)) port =
      (ip ∷ ips, refl, push_addrs-map (ip ∷ ips) port, omega arith)

module _ {Conf Opts Ip R Cache : Type 0} (dns : ResolverCrate Conf Opts Ip R) where
  resolve-IsResolution :
      (context : Context R Cache) (addr : List ℕ) (port : ℕ)
      → IsResolution dns
          (dns.lookup_ip context.dns_resolver addr)
          port
          (resolve dns context addr port)
  unfolding resolve
  resolve-IsResolution context addr port =
      looked_up-IsResolution dns (dns.lookup_ip context.dns_resolver addr) port

module _ {Conf Opts Ip R NameServer Cache : Type 0} (dns : ResolverCrate Conf Opts Ip R)
    (trust : TrustDns NameServer Ip Conf) (lru : ℕ → Cache) where
  -- Where the resolver of a context has its configuration and its options from: the name servers of
  -- the section on DNS, with the options of the crate, or without that section the system.
  pub data IsSource (config : Config) : Conf → Opts → Type 0 where
    of_section :
        (ds : DnsConfig) (servers : List NameServer)
        → config.dns ≡ some ds
        → AllStandFor trust ds.servers servers
        → IsSource config
            (foldl (λ conf s. trust.add_name_server s conf) trust.empty servers)
            dns.default_opts
    of_system_conf :
        (conf : Conf) (opts : Opts)
        → config.dns ≡ none
        → dns.read_system_conf ≡ some (conf, opts)
        → IsSource config conf opts

  -- The resolver `r` was made from such a source.
  abbrev IsResolver : Config → Outcome IoError R → Type 0
  IsResolver config (ok r) =
      (conf : Conf) × (opts : Opts) × IsSource config conf opts
      × (dns.new_resolver conf opts ≡ inr r)
  IsResolver config _ = Unit

  created-IsResolver :
      (config : Config) (conf : Conf) (opts : Opts) (r : IoError ⊎ R)
      → IsSource config conf opts
      → dns.new_resolver conf opts ≡ r
      → IsResolver config (created dns r)
  created-IsResolver config conf opts (inl e) source h = tt
  created-IsResolver config conf opts (inr r) source h = (conf, opts, source, h)

  of_system-IsResolver :
      (config : Config) (o : Option (Conf × Opts))
      → config.dns ≡ none
      → dns.read_system_conf ≡ o
      → IsResolver config (of_system dns o)
  of_system-IsResolver config none absent h = tt
  of_system-IsResolver config (some (conf, opts)) absent h =
      created-IsResolver config conf opts (dns.new_resolver conf opts)
        (of_system_conf conf opts absent h) refl

  without_section : (config : Config) → get_dns_config trust (record config { dns = none }) ≡ none
  unfolding get_dns_config
  without_section config = refl

  create_resolver-IsResolver :
      (config : Config) (section : Option DnsConfig)
      → config.dns ≡ section
      → IsResolver config
          (create_resolver dns (get_dns_config trust (record config { dns = section })))
  unfolding create_resolver
  create_resolver-IsResolver config none e =
      rw (without_section config) (of_system-IsResolver config dns.read_system_conf e refl)
  create_resolver-IsResolver config (some ds) e =
      let (servers, stand, h) = (get_dns_config_lem trust config ds).1 in
      let conf = foldl (λ conf s. trust.add_name_server s conf) trust.empty servers in
      rw h (
        created-IsResolver config conf dns.default_opts (dns.new_resolver conf dns.default_opts)
          (of_section ds servers e stand) refl)

  with_resolver-IsResolver :
      (config : Config) (cache : Option Cache) (o : Outcome IoError R) (context : Context R Cache)
      → IsResolver config o
      → with_resolver dns trust lru config cache o ≡ ok context
      → IsResolver config (ok context.dns_resolver)
  with_resolver-IsResolver config cache (ok r) context h e =
      let same : r ≡ context.dns_resolver =
        ap (λ (c : Outcome IoError (Context R Cache)). resolver_or r c) e in
      subst (λ x. IsResolver config (ok x)) same h
    where
      resolver_or : R → Outcome IoError (Context R Cache) → R
      resolver_or d (ok c) = c.dns_resolver
      resolver_or d _ = d
  with_resolver-IsResolver config cache (err x) context h e = cc
  with_resolver-IsResolver config cache panicked context h e = cc

  -- In a context that `Context::new` has made, names are looked up by a resolver with the name
  -- servers that the words of the configuration stand for, in their order, or without a section
  -- on DNS with those of the system. Resolving gives each address of the lookup, in order, with
  -- the port that was asked for, at least one, or the reason why there is none; it never
  -- panics.
  pub resolve-new :
      (config : Config) (context : Context R Cache) (addr : List ℕ) (port : ℕ)
      → new dns trust lru config ≡ ok context
      → (conf : Conf) × (opts : Opts) × IsSource config conf opts
        × (dns.new_resolver conf opts ≡ inr context.dns_resolver)
        × IsResolution dns
            (dns.lookup_ip context.dns_resolver addr)
            port
            (resolve dns context addr port)
  unfolding new
  resolve-new config context addr port made =
      let (conf, opts, source, h) =
        with_resolver-IsResolver config none (create_resolver dns (get_dns_config trust config))
          context (create_resolver-IsResolver config config.dns refl) made in
      (conf, opts, source, h, resolve-IsResolution dns context addr port)

module _ {Conf Opts Ip R NameServer Cache : Type 0} (dns : ResolverCrate Conf Opts Ip R)
    (trust : TrustDns NameServer Ip Conf) (lru : ℕ → Cache) where
  -- Of two contexts for one configuration, one made for name servers and one not, both have the same resolver, or
  -- neither is made; only that for name servers has a cache, and asking the other for it is a panic.
  abbrev pub IsTwin : Outcome IoError (Context R Cache) → Outcome IoError (Context R Cache) → Type 0
  IsTwin (ok c) (ok d) =
      (c.dns_resolver ≡ d.dns_resolver)
      × (dns_query_cache c ≡ panicked)
      × (dns_query_cache d ≡ ok (lru 1024))
  IsTwin (err e) (err e') = e ≡ e'
  IsTwin panicked panicked = Unit
  IsTwin _ _ = ⊥

  with_resolver-IsTwin :
      (config : Config) (o : Outcome IoError R)
      → IsTwin
          (with_resolver dns trust lru config none o)
          (with_resolver dns trust lru config (some (lru 1024)) o)
  with_resolver-IsTwin config (ok r) = (refl, refl, refl)
  with_resolver-IsTwin config (err e) = refl
  with_resolver-IsTwin config panicked = tt

  pub new-IsTwin :
      (config : Config) → IsTwin (new dns trust lru config) (new_dns dns trust lru config)
  unfolding new new_dns
  new-IsTwin config =
      with_resolver-IsTwin config (create_resolver dns (get_dns_config trust config))
