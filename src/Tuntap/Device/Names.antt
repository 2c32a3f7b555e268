-- ===== src/Tuntap/Device/Names.antt =====
-- The name of an interface, and the requests that are made with it.
use tache_rs.Prelude.{
  ℕ, ◌+◌, ◌≡◌, ◌<◌, refl, arith, List, [], length, Bool-cases, inl, inr, ◌⊎◌, ltb,
}
use tache_rs.Std.Exec.{Outcome, ok, err, panicked}
use tache_rs.Std.Array.{filled, overwrite-filled}
use tache_rs.Std.Io.{IoError}
use tache_rs.Tuntap.Error.{Error}
use tache_rs.Tuntap.Device.{
  Device, Ioctls, ifnamsiz, copy_name, request, set_name, has_nul, renamed, returned,
}

-- The name leaves room for the zero behind it.
abbrev pub HasShortName : Device → Type 0
HasShortName dev = length dev.name < ifnamsiz

pub copy_short :
    {K : Type 0}
    → (name : List ℕ) (k : K) → length name < ifnamsiz
    → copy_name name k ≡ (ok (filled name 16), k)
unfolding copy_name
copy_short name k h = rw (overwrite-filled [] name 16 0 refl (omega arith)) refl

module _ {K : Type 0} where
  -- What may come of `set_name value` on `dev`.
  abbrev pub IsRenaming : List ℕ → Device → Outcome Error Unit × (Device × K) → Type 0
  IsRenaming value dev (ok _, (dev', k)) = (dev' ≡ record dev { name = value }) × HasShortName dev'
  IsRenaming value dev (err e, (dev', k)) = dev' ≡ dev
  IsRenaming value dev (panicked, (dev', k)) = ⊥

  -- On an interface with a name of at most 15 bytes, `set_name` never copies outside of the
  -- request. It gives the interface the new name, which has at most 15 bytes too, or it fails
  -- and leaves the old one.
  pub set_name-IsRenaming :
      (ioctls : Ioctls K) (value : List ℕ) (dev : Device) (k : K)
      → HasShortName dev
      → IsRenaming value dev (set_name ioctls value (dev, k))
  unfolding set_name request
  set_name-IsRenaming ioctls value dev k h = elim (Bool-cases (has_nul value)) [
    | inl nul ↦ rw nul refl
    | inr plain ↦ elim (Bool-cases (ltb 16 (length value + 1))) [
      | inl long ↦ rw (plain, long) refl
      | inr short ↦
          let fits : length value < 16 = ground arith in
          rw (plain, short, copy_short dev.name k h, copy_short value k fits)
            (answer (ioctls.siocsifname dev.ctl.raw (filled dev.name 16) (filled value 16) k) fits)
    ]
  ]
    where
      answer :
          (r : (IoError ⊎ Unit {0}) × K)
          → length value < 16
          → IsRenaming value dev (renamed ioctls value dev (returned r))
      answer (inl e, k') fits = refl
      answer (inr _, k') fits = (refl, fits)
