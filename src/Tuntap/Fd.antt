-- ===== src/Tuntap/Fd.antt =====
-- platform/posix/fd.rs: a file descriptor that is closed when its owner goes away. The calls of the
-- system, on its state `K`, are parameters.
pub mod Owned
use tache_rs.Prelude.{ℕ, Bool, List, [], ◌∷◌, length, if◌then◌else◌, not}
use tache_rs.Std.Exec.{Exec, Outcome, Never, ok, err, pure, ◌>>=◌, ◌>>◌, convert}
use tache_rs.Std.Int.{ℤ, pos, negsuc, is_negative}
use tache_rs.Std.Io.{IoError}
use tache_rs.Tuntap.Error.{Error, invalid_descriptor}

pub record Fd : Type 0 where
  pub raw : ℤ

-- `read` gives the bytes or sets the error, `write` the number of bytes that were written.
pub record Posix (K : Type 0) : Type 0 where
  pub read : ℤ → ℕ → Exec K IoError (List ℕ)
  pub write : ℤ → List ℕ → Exec K IoError ℕ
  pub close : ℤ → K → K

unfoldable pub new : ℤ → Outcome Error Fd
new value = if is_negative value then err invalid_descriptor else ok (record { raw = value })

module _ {K : Type 0} (posix : Posix K) where
  unfoldable pub read : Fd → ℕ → Exec K IoError (List ℕ)
  read fd n = posix.read fd.raw n

  unfoldable pub write : Fd → List ℕ → Exec K IoError ℕ
  write fd buf = posix.write fd.raw buf

  unfoldable pub flush : Fd → Exec K IoError Unit
  flush fd = pure tt

  unfoldable pub as_raw_fd : Fd → ℤ
  as_raw_fd fd = fd.raw

  unfoldable pub drop : Fd → K → K
  drop fd k = if not (is_negative fd.raw) then posix.close fd.raw k else k

  -- The owner is dropped at the end of the call, with -1 in the place of the descriptor.
  unfoldable pub into_raw_fd : Fd → K → ℤ × K
  unfolding drop
  into_raw_fd fd k = (fd.raw, drop (record fd { raw = negsuc 0 }) k)
