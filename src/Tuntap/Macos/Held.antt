-- ===== src/Tuntap/Macos/Held.antt =====
-- The descriptors that a program holds before and after `Device::new` of macOS.
use tache_rs.Prelude.{
  ℕ, subst, ◌≡◌, ◌≢◌, refl, ◌∙◌, false, ltb, Option, none, some, List, ◌∷◌, ◌⊎◌, inl, inr, length,
  drop, Bool-cases, Option-cases,
}
use tache_rs.Std.Exec.{Outcome, ok, err, panicked}
use tache_rs.Std.Int.{ℤ, is_negative}
use tache_rs.Std.Io.{IoError}
use tache_rs.Std.Text.{text}
use tache_rs.Std.Parse.{parse_i32}
use tache_rs.Tuntap.Error.{Error, name_too_long, invalid_name, invalid_number}
use tache_rs.Tuntap.Fd.{Fd}
use tache_rs.Tuntap.Builder.{Configuration}
use tache_rs.Tuntap.Opening.{owned}
use tache_rs.Tuntap.Opening.Held.{Gives, Holds, Keeps, Owns, owned-Owns, drop_one, with_ctl-Keeps}
use tache_rs.Tuntap.Macos.Create.{
  Creation, SockaddrCtl, starts_with, unit_of, control, ctl_name, with_name, connected, with_info,
  with_tun, with_unit, new,
}

module _ {K : Type 0} (sys : Creation K) (held : K → List ℤ) where
  -- What the system does with the descriptors of the program.
  pub record HoldsUtun : Type 0 where
    pub host : Holds sys.host held
    pub socket_system : (k : K) → Gives sys.host held k (sys.socket_system k)
    pub ctliocginfo : (fd : ℤ) (name : List ℕ) (k : K) → held (sys.ctliocginfo fd name k).1 ≡ held k
    pub connect : (fd : ℤ) (addr : SockaddrCtl) (k : K) → held (sys.connect fd addr k).1 ≡ held k
    pub getsockopt : (fd : ℤ) (k : K) → held (sys.getsockopt fd k).1 ≡ held k

  module _ (holds : HoldsUtun) (before : List ℤ) where
    with_name-Keeps :
        (tun : Fd) (r : (IoError ⊎ List ℕ) × K)
        → held r.1 ≡ tun.raw ∷ before
        → is_negative tun.raw ≡ false
        → Keeps sys.host held before (with_name sys tun r)
    with_name-Keeps tun (inl e, k) h valid = drop_one sys.host held holds.host before tun k h valid
    with_name-Keeps tun (inr name, k) h valid =
        with_ctl-Keeps sys.host held holds.host before tun name (owned sys.host (sys.host.socket k))
          (subst (λ (l : List ℤ). Owns sys.host held l (owned sys.host (sys.host.socket k))) h
            (owned-Owns sys.host held k (sys.host.socket k) (holds.host.socket k)))
          valid

    connected-Keeps :
        (tun : Fd) (r : (IoError ⊎ Unit {0}) × K)
        → held r.1 ≡ tun.raw ∷ before
        → is_negative tun.raw ≡ false
        → Keeps sys.host held before (connected sys tun r)
    connected-Keeps tun (inl e, k) h valid = drop_one sys.host held holds.host before tun k h valid
    connected-Keeps tun (inr _, k) h valid =
        with_name-Keeps tun (sys.getsockopt tun.raw k) (holds.getsockopt tun.raw k ∙ h) valid

    with_info-Keeps :
        (id : ℤ) (tun : Fd) (r : (IoError ⊎ ℕ) × K)
        → held r.1 ≡ tun.raw ∷ before
        → is_negative tun.raw ≡ false
        → Keeps sys.host held before (with_info sys id tun r)
    with_info-Keeps id tun (inl e, k) h valid =
        drop_one sys.host held holds.host before tun k h valid
    with_info-Keeps id tun (inr ctl_id, k) h valid =
        let addr = control id ctl_id in
        connected-Keeps tun (sys.connect tun.raw addr k) (holds.connect tun.raw addr k ∙ h) valid

    with_tun-Keeps :
        (id : ℤ) (r : (IoError ⊎ Fd) × K)
        → Owns sys.host held before r
        → Keeps sys.host held before (with_tun sys id r)
    with_tun-Keeps id (inl e, k) h = h
    with_tun-Keeps id (inr tun, k) h =
        with_info-Keeps id tun (sys.ctliocginfo tun.raw ctl_name k)
          (holds.ctliocginfo tun.raw ctl_name k ∙ h.0) h.1

    with_unit-Keeps :
        (o : Outcome Error ℤ) (k : K)
        → o ≢ panicked
        → held k ≡ before
        → Keeps sys.host held before (with_unit sys o k)
    with_unit-Keeps (ok id) k h e = with_tun-Keeps id (owned sys.host (sys.socket_system k)) (
        subst (λ (l : List ℤ). Owns sys.host held l (owned sys.host (sys.socket_system k))) e
          (owned-Owns sys.host held k (sys.socket_system k) (holds.socket_system k)))
    with_unit-Keeps (err x) k h e = e
    with_unit-Keeps panicked k h e = absurd (h refl)

unit_of_total : (name : Option (List ℕ)) → unit_of name ≢ panicked
unfolding unit_of
unit_of_total none h = cc
unit_of_total (some name) h = elim (Bool-cases (ltb 16 (length name))) [
  | inl long ↦ let f : err name_too_long ≡ panicked = rw long at h in cc
  | inr short ↦ elim (Bool-cases (starts_with (text "utun") name)) [
    | inr foreign ↦ let f : err invalid_name ≡ panicked = rw (short, foreign) at h in cc
    | inl utun ↦ elim (Option-cases (parse_i32 (drop 4 name))) [
      | inl bad ↦ let f : err invalid_number ≡ panicked = rw (short, utun, bad) at h in cc
      | inr (n, good) ↦ let f : ok n ≡ panicked = rw (short, utun, good) at h in cc
    ]
  ]
]

-- The system adds a descriptor to those of the program where it gives one, takes it away where
-- it is closed, and changes nothing else of them. Then `new` never panics: it returns a device
-- that has two more descriptors than the program had, or it fails and leaves the program with
-- those that it had, whatever the name is and whichever of its steps went wrong.
pub utun-Keeps :
    {K : Type 0}
    → (sys : Creation K) (held : K → List ℤ) (config : Configuration) (k : K) → HoldsUtun sys held
    → Keeps sys.host held (held k) (new sys config k)
unfolding new
utun-Keeps sys held config k holds =
    with_unit-Keeps sys held holds (held k) (unit_of config.name) k (unit_of_total config.name) refl
