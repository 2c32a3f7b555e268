-- ===== src/Tuntap/Opening.antt =====
-- What the devices of Linux and macOS share in how they are opened, and when their descriptors are
-- closed. The system calls are parameters, as is `configure`, which the repository does not have. A value
-- that owns a descriptor is dropped where the function returns without it.
pub mod Held
use tache_rs.Prelude.{ℕ, ◌==◌, if◌then◌else◌, List, [], ◌∷◌, ◌⊎◌, inl, inr}
use tache_rs.Std.Exec.{Outcome, ok, err}
use tache_rs.Std.Int.{ℤ}
use tache_rs.Std.Io.{IoError}
use tache_rs.Tuntap.Error.{Error, io}
use tache_rs.Tuntap.Fd
use tache_rs.Tuntap.Fd.{Fd, Posix}
use tache_rs.Tuntap.Device.{Device}

-- `socket` is that for the requests.
pub record Host (K : Type 0) : Type 0 where
  pub posix : Posix K
  pub socket : K → ℤ × K
  pub last_os_error : K → IoError
  pub to_string_lossy : List ℕ → List ℕ
  pub configure : Device → K → (Error ⊎ Unit {0}) × K

-- The bytes of a C string.
abbrev pub until_nul : List ℕ → List ℕ
until_nul [] = []
until_nul (c ∷ cs) = let rest = until_nul cs in if c == 0 then [] else c ∷ rest

module _ {K : Type 0} (host : Host K) where
  -- `Fd::new(...)` with the error of the system in place of its own.
  unfoldable pub owned : ℤ × K → (IoError ⊎ Fd) × K
  unfolding Fd.new
  owned (raw, k) = owned_as (Fd.new raw)
    where
      owned_as : Outcome Error Fd → (IoError ⊎ Fd) × K
      owned_as (ok fd) = (inr fd, k)
      owned_as _ = (inl (host.last_os_error k), k)

  unfoldable pub drop_device : Device → K → K
  unfolding Fd.drop
  drop_device dev k = Fd.drop host.posix dev.ctl (Fd.drop host.posix dev.tun k)

  -- `device.configure(&config)?`
  abbrev pub configured : Device → (Error ⊎ Unit {0}) × K → Outcome Error Device × K
  configured dev (inl e, k) = (err e, drop_device dev k)
  configured dev (inr _, k) = (ok dev, k)

  -- With the descriptor for the requests.
  abbrev pub with_ctl : Fd → List ℕ → (IoError ⊎ Fd) × K → Outcome Error Device × K
  with_ctl tun name (inl e, k) = (err (io e), Fd.drop host.posix tun k)
  with_ctl tun name (inr ctl, k) =
      let dev : Device = record {
        name = host.to_string_lossy (until_nul name);
        tun = tun;
        ctl = ctl;
      } in
      configured dev (host.configure dev k)
