-- ===== src/Tuntap/Device/Create/Held.antt =====
-- The descriptors that a program holds before and after `Device::new`.
use tache_rs.Prelude.{
  ℕ, subst, ◌+◌, ◌≡◌, ◌<◌, refl, ◌∙◌, arith, false, ltb, Option, none, some, List, [], ◌∷◌, ◌⊎◌,
  inl, inr, length, Bool-cases,
}
use tache_rs.Std.Int.{ℤ, is_negative}
use tache_rs.Std.Io.{IoError}
use tache_rs.Std.Array.{overwrite-filled, filled}
use tache_rs.Tuntap.Fd.{Fd}
use tache_rs.Tuntap.Device.{ifnamsiz, has_nul}
use tache_rs.Tuntap.Builder.{Configuration}
use tache_rs.Tuntap.Opening.{owned}
use tache_rs.Tuntap.Opening.Held.{Gives, Holds, Keeps, Owns, owned-Owns, drop_one, with_ctl-Keeps}
use tache_rs.Tuntap.Device.Create.{
  Creation, check_name, flags_of, with_interface, with_tun, with_name, new,
}

module _ {K : Type 0} (sys : Creation K) (held : K → List ℤ) where
  -- What the system does with the descriptors of the program.
  pub record HoldsTun : Type 0 where
    pub host : Holds sys.host held
    pub open_tun : (k : K) → Gives sys.host held k (sys.open_tun k)
    pub tunsetiff :
        (fd : ℤ) (name : List ℕ) (flags : ℕ) (k : K)
        → held (sys.tunsetiff fd name flags k).1 ≡ held k

  module _ (holds : HoldsTun) (before : List ℤ) where
    with_interface-Keeps :
        (tun : Fd) (r : (IoError ⊎ List ℕ) × K)
        → held r.1 ≡ tun.raw ∷ before
        → is_negative tun.raw ≡ false
        → Keeps sys.host held before (with_interface sys tun r)
    with_interface-Keeps tun (inl e, k) h valid =
        drop_one sys.host held holds.host before tun k h valid
    with_interface-Keeps tun (inr name, k) h valid =
        with_ctl-Keeps sys.host held holds.host before tun name (owned sys.host (sys.host.socket k))
          (subst (λ (l : List ℤ). Owns sys.host held l (owned sys.host (sys.host.socket k))) h
            (owned-Owns sys.host held k (sys.host.socket k) (holds.host.socket k)))
          valid

    with_tun-Keeps :
        (name : List ℕ) (flags : ℕ) (r : (IoError ⊎ Fd) × K)
        → length name < ifnamsiz
        → Owns sys.host held before r
        → Keeps sys.host held before (with_tun sys name flags r)
    with_tun-Keeps name flags (inl e, k) short h = h
    with_tun-Keeps name flags (inr tun, k) short h =
        rw (overwrite-filled [] name 16 0 refl (omega arith)) (
          with_interface-Keeps tun (sys.tunsetiff tun.raw (filled name 16) flags k)
            (holds.tunsetiff tun.raw (filled name 16) flags k ∙ h.0) h.1)

  with_name-Keeps :
      HoldsTun
      → (name : Option (List ℕ)) (flags : ℕ) (k : K)
      → Keeps sys.host held (held k) (with_name sys (check_name name) flags k)
  with_name-Keeps holds none flags k =
      with_tun-Keeps holds (held k) [] flags (owned sys.host (sys.open_tun k)) (omega arith)
        (owned-Owns sys.host held k (sys.open_tun k) (holds.open_tun k))
  with_name-Keeps holds (some name) flags k = elim (Bool-cases (has_nul name)) [
    | inl nul ↦ rw nul refl
    | inr plain ↦ elim (Bool-cases (ltb 16 (length name + 1))) [
      | inl long ↦ rw (plain, long) refl
      | inr short ↦
          let fits : length name < 16 = ground arith in
          rw (plain, short)
            (with_tun-Keeps holds (held k) name flags (owned sys.host (sys.open_tun k)) fits
              (owned-Owns sys.host held k (sys.open_tun k) (holds.open_tun k)))
    ]
  ]

-- The system adds a descriptor to those of the program where it gives one, takes it away where
-- it is closed, and changes nothing else of them. Then `new` never copies outside of the
-- request: it returns a device that has two more descriptors than the program had, or it fails
-- and leaves the program with those that it had, whichever of its steps went wrong.
pub new-Keeps :
    {K : Type 0}
    → (sys : Creation K) (held : K → List ℤ) (config : Configuration) (k : K) → HoldsTun sys held
    → Keeps sys.host held (held k) (new sys config k)
unfolding new
new-Keeps sys held config k holds =
    with_name-Keeps sys held holds config.name (flags_of config.platform.packet_information) k
