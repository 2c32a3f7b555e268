-- ===== src/Utils/Target/Iterate.antt =====
-- What a caller of `to_socket_addrs` gets from the iterator.
use tache_rs.Prelude.{ℕ, zero, suc, ◌≡◌, ◌<◌, refl, ap, arith, List, [], ◌∷◌, length, none, some}
use tache_rs.Std.Exec.{Outcome, ok}
use tache_rs.Std.Io.{IoError}
use tache_rs.Std.Net.{SocketAddr}
use tache_rs.Utils.{DomainName, socket_addr, domain_name}
use tache_rs.Utils.Target.{Iter, one_addr, resolved, to_socket_addrs, next}

abbrev iter_or : Iter → Outcome IoError Iter → Iter
iter_or it (ok x) = x
iter_or it _ = it

-- The addresses of the first `n` calls of `next`, as a loop takes them, up to the first `None`.
unfoldable pub collect : ℕ → Iter → List SocketAddr
unfolding next
collect zero it = []
collect (suc n) (one_addr none) = []
collect (suc n) (one_addr (some addr)) = addr ∷ collect n (next (one_addr (some addr))).1
collect (suc n) (resolved []) = []
collect (suc n) (resolved (addr ∷ addrs)) = addr ∷ collect n (next (resolved (addr ∷ addrs))).1

pub collect-resolved :
    (n : ℕ) (addrs : List SocketAddr) → length addrs < n → collect n (resolved addrs) ≡ addrs
unfolding collect next
collect-resolved zero addrs h = absurd (omega arith)
collect-resolved (suc n) [] h = refl
collect-resolved (suc n) (addr ∷ addrs) h =
    ap (λ (t : List SocketAddr). addr ∷ t) (collect-resolved n addrs (omega arith))

-- A loop of more turns than there are addresses, and of two at least, ends after the last one:
-- it takes a socket address once, and the addresses of a name in the order in which they were
-- resolved.
pub iterate_all :
    (resolve : List ℕ → ℕ → Outcome IoError (List SocketAddr)) (a : SocketAddr) (d : DomainName)
    (addrs : List SocketAddr) (it it' : Iter) (n : ℕ)
    → resolve d.name d.port ≡ ok addrs
    → to_socket_addrs resolve (socket_addr a) ≡ ok it
    → to_socket_addrs resolve (domain_name d) ≡ ok it'
    → length addrs < n
    → 1 < n
    → (collect n it ≡ a ∷ []) × (collect n it' ≡ addrs)
unfolding to_socket_addrs collect next
iterate_all resolve a d addrs it it' (suc (suc n)) found once many h k =
    let e : one_addr (some a) ≡ it = ap (iter_or it) once in
    let e' : resolved addrs ≡ it' = ap (iter_or it') (rw found at many) in
    rw (← e, ← e') (refl, collect-resolved (suc (suc n)) addrs h)
iterate_all resolve a d addrs it it' (suc zero) found once many h k = absurd (omega arith)
iterate_all resolve a d addrs it it' zero found once many h k = absurd (omega arith)
