-- ===== src/Resolve.antt =====
-- dns_resolver.rs and context.rs: the resolver of a configuration, and the resolution of a name by it.
-- The crate trust-dns and the cache of the crate lru-cache are parameters.
pub mod Names
use tache_rs.Prelude.{ℕ, ◌≡◌, refl, String, Option, none, some, List, [], ◌∷◌, ◌⊎◌, inl, inr}
use tache_rs.Std.Exec.{Outcome, ok, err, panicked}
use tache_rs.Std.Io.{IoError}
use tache_rs.Std.Net.{SocketAddr}
use tache_rs.Config.Types.{Config}
use tache_rs.Config.Dns.{TrustDns, get_dns_config}

-- The errors of a resolution, all of the kind `Other`: that of a lookup by its text, or none found.
pub data ResolveError : Type 0 where
  dns_resolve_error : List ℕ → ResolveError
  resolved_to_empty : ResolveError

-- `Conf` is a configuration of a resolver, `Opts` its options, `R` a resolver.
pub record ResolverCrate (Conf Opts Ip R : Type 0) : Type 0 where
  pub default_opts : Opts
  pub read_system_conf : Option (Conf × Opts)
  pub new_resolver : Conf → Opts → IoError ⊎ R
  pub lookup_ip : R → List ℕ → List ℕ ⊎ List Ip
  pub socket_addr : Ip → ℕ → SocketAddr

module _ {Conf Opts Ip R : Type 0} (dns : ResolverCrate Conf Opts Ip R) where
  abbrev pub created : IoError ⊎ R → Outcome IoError R
  created (inl e) = err e
  created (inr r) = ok r

  -- `read_system_conf().expect(...)`
  abbrev pub of_system : Option (Conf × Opts) → Outcome IoError R
  of_system none = panicked
  of_system (some (config, opts)) = created (dns.new_resolver config opts)

  unfoldable pub create_resolver : Option Conf → Outcome IoError R
  create_resolver (some conf) = created (dns.new_resolver conf dns.default_opts)
  create_resolver none = of_system dns.read_system_conf

  -- `for ip in lookup_result.iter()`
  abbrev pub push_addrs : List Ip → ℕ → List SocketAddr
  push_addrs [] port = []
  push_addrs (ip ∷ ips) port = dns.socket_addr ip port ∷ push_addrs ips port

  abbrev pub not_empty : List SocketAddr → Outcome ResolveError (List SocketAddr)
  not_empty [] = err resolved_to_empty
  not_empty (addr ∷ addrs) = ok (addr ∷ addrs)

  abbrev pub looked_up : List ℕ ⊎ List Ip → ℕ → Outcome ResolveError (List SocketAddr)
  looked_up (inl e) port = err (dns_resolve_error e)
  looked_up (inr ips) port = not_empty (push_addrs ips port)

-- The cache is there only in a context for name servers.
pub record Context (R Cache : Type 0) : Type 0 where
  pub config : Config
  pub dns_resolver : R
  pub dns_query_cache : Option Cache

module _ {Conf Opts Ip R NameServer Cache : Type 0} (dns : ResolverCrate Conf Opts Ip R)
    (trust : TrustDns NameServer Ip Conf) (lru : ℕ → Cache) where
  abbrev pub with_resolver :
      Config → Option Cache → Outcome IoError R → Outcome IoError (Context R Cache)
  with_resolver config cache (ok r) =
      ok (record { config = config; dns_resolver = r; dns_query_cache = cache })
  with_resolver config cache (err e) = err e
  with_resolver config cache panicked = panicked

  -- `Context::new`
  unfoldable pub new : Config → Outcome IoError (Context R Cache)
  unfolding create_resolver get_dns_config
  new config = with_resolver config none (create_resolver dns (get_dns_config trust config))

  unfoldable pub new_dns : Config → Outcome IoError (Context R Cache)
  unfolding create_resolver get_dns_config
  new_dns config =
      with_resolver config (some (lru 1024)) (create_resolver dns (get_dns_config trust config))

module _ {Cache : Type 0} where
  -- `self.dns_query_cache.as_ref().unwrap()`; the lock is not poisoned, since no holder panics.
  abbrev pub cache_of : Option Cache → Outcome IoError Cache
  cache_of none = panicked
  cache_of (some cache) = ok cache

module _ {R Cache : Type 0} where
  abbrev pub dns_query_cache : Context R Cache → Outcome IoError Cache
  dns_query_cache context = cache_of context.dns_query_cache

module _ {Conf Opts Ip R Cache : Type 0} (dns : ResolverCrate Conf Opts Ip R) where
  unfoldable pub inner_resolve :
      Context R Cache → List ℕ → ℕ → Outcome ResolveError (List SocketAddr)
  inner_resolve context addr port = looked_up dns (dns.lookup_ip context.dns_resolver addr) port

  unfoldable pub resolve : Context R Cache → List ℕ → ℕ → Outcome ResolveError (List SocketAddr)
  unfolding inner_resolve
  resolve context addr port = inner_resolve context addr port
