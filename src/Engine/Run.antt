-- ===== src/Engine/Run.antt =====
-- engine/mod.rs: `run`, which starts a server for each address of each inbound.
use tache_rs.Prelude.{
  ℕ, suc, ◌≡◌, ◌≢◌, refl, sym, ap, ◌∙◌, arith, Option, none, some, List, [], ◌∷◌, ◌++◌, map,
  append_assoc, append-nil, length, ◌⊎◌,
}
use tache_rs.Std.Exec.{Outcome, ok, err, panicked}
use tache_rs.Std.Io.{IoError, io_error, other}
use tache_rs.Std.Net.{SocketAddr}
use tache_rs.Utils.{Address, socket_addr, domain_name}
use tache_rs.Utils.Target.{Iter, one_addr, resolved, to_socket_addrs, next, iterate}
use tache_rs.Utils.Target.Iterate.{collect, collect-resolved}
use tache_rs.Config.Types.{
  Config, InboundConfig, http_inbound, socks5_inbound, redir_inbound, tun_inbound,
}

-- The futures of the inbounds, by the call that makes them.
pub data Running : Type 0 where
  single_run_http : SocketAddr → Running
  single_run_socks : SocketAddr → Running
  single_run_redir : SocketAddr → Running
  single_run_tun : Running

-- More turns than an iterator has addresses.
abbrev turns : Iter → ℕ
turns (one_addr a) = 2
turns (resolved addrs) = suc (length addrs)

-- `listen.to_socket_addrs()?`, and the loop over the addresses, which pushes a future for each.
unfoldable pub push_all :
    (SocketAddr → Running) → Outcome IoError Iter → List Running → Outcome IoError (List Running)
push_all single_run (ok it) vf = ok (vf ++ map single_run (collect (turns it) it))
push_all single_run (err e) vf = err e
push_all single_run panicked vf = panicked

abbrev pub and_then :
    Outcome IoError (List Running)
    → (List Running → Outcome IoError (List Running))
    → Outcome IoError (List Running)
and_then (ok vf) f = f vf
and_then (err e) f = err e
and_then panicked f = panicked

-- The error, when the first server has ended, with whatever result.
abbrev pub exited : Option (List ℕ ⊎ Unit {0}) → Option (Outcome IoError (Unit {0}))
exited none = none
exited (some res) = some (err (io_error other "server exited unexpectedly"))

module _ (resolve : List ℕ → ℕ → Outcome IoError (List SocketAddr)) where
  -- `match inbound`
  unfoldable pub push_inbound : InboundConfig → List Running → Outcome IoError (List Running)
  unfolding push_all
  push_inbound (http_inbound name listen auth) vf =
      push_all single_run_http (to_socket_addrs resolve listen) vf
  push_inbound (socks5_inbound name listen auth) vf =
      push_all single_run_socks (to_socket_addrs resolve listen) vf
  push_inbound (redir_inbound name listen auth) vf =
      push_all single_run_redir (to_socket_addrs resolve listen) vf
  push_inbound (tun_inbound name) vf = ok (vf ++ single_run_tun ∷ [])

  -- `for inbound in config.inbounds.iter()`
  unfoldable pub push_inbounds : List InboundConfig → List Running → Outcome IoError (List Running)
  unfolding push_inbound
  push_inbounds [] vf = ok vf
  push_inbounds (i ∷ is) vf = and_then (push_inbound i vf) (push_inbounds is)

  -- `select_all` panics without a future; `select` tells what the first of them to end gives, if one ever
  -- does. A call that does not return is `none`.
  abbrev pub select_all :
      (Running → List Running → Option (List ℕ ⊎ Unit {0}))
      → Outcome IoError (List Running)
      → Option (Outcome IoError (Unit {0}))
  select_all select (err e) = some (err e)
  select_all select panicked = some panicked
  select_all select (ok []) = some panicked
  select_all select (ok (f ∷ fs)) = exited (select f fs)

  unfoldable pub run :
      (Running → List Running → Option (List ℕ ⊎ Unit {0}))
      → Config
      → Option (Outcome IoError (Unit {0}))
  unfolding push_inbounds
  run select config = select_all select (push_inbounds config.inbounds [])

  -- The addresses that an inbound listens at.
  abbrev pub addrs_of : Address → Outcome IoError (List SocketAddr)
  addrs_of (socket_addr addr) = ok (addr ∷ [])
  addrs_of (domain_name d) = resolve d.name d.port

  abbrev pub each :
      (SocketAddr → Running) → Outcome IoError (List SocketAddr) → Outcome IoError (List Running)
  each single_run (ok addrs) = ok (map single_run addrs)
  each single_run (err e) = err e
  each single_run panicked = panicked

  abbrev pub wanted : InboundConfig → Outcome IoError (List Running)
  wanted (http_inbound name listen auth) = each single_run_http (addrs_of listen)
  wanted (socks5_inbound name listen auth) = each single_run_socks (addrs_of listen)
  wanted (redir_inbound name listen auth) = each single_run_redir (addrs_of listen)
  wanted (tun_inbound name) = ok (single_run_tun ∷ [])

  abbrev pub in_front :
      List Running → Outcome IoError (List Running) → Outcome IoError (List Running)
  in_front fs (ok gs) = ok (fs ++ gs)
  in_front fs (err e) = err e
  in_front fs panicked = panicked

  -- Those of all inbounds in order, or the first error.
  abbrev pub plan : List InboundConfig → Outcome IoError (List Running)
  plan [] = ok []
  plan (i ∷ is) = and_then (wanted i) (λ fs. in_front fs (plan is))

  push_all-each :
      (single_run : SocketAddr → Running) (listen : Address) (vf : List Running)
      → push_all single_run (to_socket_addrs resolve listen) vf
        ≡ in_front vf (each single_run (addrs_of listen))
  unfolding push_all collect next to_socket_addrs
  push_all-each single_run (socket_addr addr) vf = refl
  push_all-each single_run (domain_name d) vf = go (resolve d.name d.port)
    where
      go :
          (o : Outcome IoError (List SocketAddr))
          → push_all single_run (iterate o) vf ≡ in_front vf (each single_run o)
      go (ok addrs) = rw (collect-resolved (suc (length addrs)) addrs (omega arith)) refl
      go (err e) = refl
      go panicked = refl

  push_inbound-wanted :
      (i : InboundConfig) (vf : List Running) → push_inbound i vf ≡ in_front vf (wanted i)
  unfolding push_inbound
  push_inbound-wanted (http_inbound name listen auth) vf = push_all-each single_run_http listen vf
  push_inbound-wanted (socks5_inbound name listen auth) vf =
      push_all-each single_run_socks listen vf
  push_inbound-wanted (redir_inbound name listen auth) vf = push_all-each single_run_redir listen vf
  push_inbound-wanted (tun_inbound name) vf = refl

  in_front-append :
      (fs gs : List Running) (o : Outcome IoError (List Running))
      → in_front (fs ++ gs) o ≡ in_front fs (in_front gs o)
  in_front-append fs gs (ok hs) = ap ok (append_assoc fs gs hs)
  in_front-append fs gs (err e) = refl
  in_front-append fs gs panicked = refl

  push_inbounds-plan :
      (is : List InboundConfig) (vf : List Running) → push_inbounds is vf ≡ in_front vf (plan is)
  unfolding push_inbounds
  push_inbounds-plan [] vf = ap ok (sym (append-nil vf))
  push_inbounds-plan (i ∷ is) vf =
      rw (push_inbound-wanted i vf) (go (wanted i) (push_inbounds-plan is))
    where
      go :
          (o : Outcome IoError (List Running))
          → ((vf : List Running) → push_inbounds is vf ≡ in_front vf (plan is))
          → and_then (in_front vf o) (push_inbounds is)
            ≡ in_front vf (and_then o (λ fs. in_front fs (plan is)))
      go (ok fs) h = h (vf ++ fs) ∙ in_front-append vf fs (plan is)
      go (err e) h = refl
      go panicked h = refl

  in_front-nil : (o : Outcome IoError (List Running)) → in_front [] o ≡ o
  in_front-nil (ok fs) = refl
  in_front-nil (err e) = refl
  in_front-nil panicked = refl

  never_ok :
      (select : Running → List Running → Option (List ℕ ⊎ Unit {0}))
      (o : Outcome IoError (List Running))
      → select_all select o ≢ some (ok tt)
  never_ok select (ok []) h = cc
  never_ok select (ok (f ∷ fs)) h = go (select f fs) h
    where
      go : (res : Option (List ℕ ⊎ Unit {0})) → exited res ≢ some (ok tt)
      go none h = cc
      go (some res) h = cc
  never_ok select (err e) h = cc
  never_ok select panicked h = cc

  -- The program runs a server for each address of each inbound, in the order of the
  -- configuration, or none at all if an address cannot be resolved, whose error it returns. It
  -- panics if there is no address and no tunnel, and when the first server ends, however it
  -- does, it returns an error.
  pub run-plan :
      (select : Running → List Running → Option (List ℕ ⊎ Unit {0})) (config : Config)
      → (run select config ≡ select_all select (plan config.inbounds))
        × (run select config ≢ some (ok tt))
  unfolding run
  run-plan select config =
      let e : push_inbounds config.inbounds [] ≡ plan config.inbounds =
        push_inbounds-plan config.inbounds [] ∙ in_front-nil (plan config.inbounds) in
      rw e (refl, never_ok select (plan config.inbounds))
