-- ===== src/Tuntap/Fd/Owned.antt =====
-- Who closes a descriptor.
use tache_rs.Prelude.{ℕ, ◌≡◌, refl}
use tache_rs.Std.Exec.{ok, err}
use tache_rs.Std.Int.{pos, negsuc}
use tache_rs.Tuntap.Error.{invalid_descriptor}
use tache_rs.Tuntap.Fd.{Posix, new, drop, into_raw_fd}

-- A negative number is no descriptor, and its owner is refused; another one is owned, is closed
-- once when its owner is dropped, and is handed out without being closed.
pub fd_owned :
    {K : Type 0}
    → (posix : Posix K) (n m : ℕ) (k : K)
    → (new (negsuc n) ≡ err invalid_descriptor)
      × (new (pos m) ≡ ok (record { raw = pos m }))
      × (drop posix (record { raw = pos m }) k ≡ posix.close (pos m) k)
      × (into_raw_fd posix (record { raw = pos m }) k ≡ (pos m, k))
unfolding new drop into_raw_fd
fd_owned posix n m k = (refl, refl, refl, refl)
