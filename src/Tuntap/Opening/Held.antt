-- ===== src/Tuntap/Opening/Held.antt =====
-- The descriptors that a program holds while a device is opened.
use tache_rs.Prelude.{
  ℕ, ◌≡◌, refl, ◌∙◌, arith, Bool, true, false, ◌==◌, if◌then◌else◌, List, [], ◌∷◌, ◌⊎◌, inl, inr,
  Bool-cases,
}
use tache_rs.Std.Exec.{Outcome, ok, err, panicked}
use tache_rs.Std.Int.{ℤ, pos, negsuc, is_negative}
use tache_rs.Std.Io.{IoError}
use tache_rs.Tuntap.Error.{Error}
use tache_rs.Tuntap.Fd
use tache_rs.Tuntap.Fd.{Fd}
use tache_rs.Tuntap.Device.{Device}
use tache_rs.Tuntap.Opening.{Host, owned, drop_device, configured, with_ctl}

abbrev same_int : ℤ → ℤ → Bool
same_int (pos n) (pos m) = n == m
same_int (negsuc n) (negsuc m) = n == m
same_int _ _ = false

same_int_refl : (z : ℤ) → same_int z z ≡ true
same_int_refl (pos n) = ground arith
same_int_refl (negsuc n) = ground arith

same_int_sym : (a b : ℤ) → same_int a b ≡ true → same_int b a ≡ true
same_int_sym (pos n) (pos m) h = ground arith
same_int_sym (negsuc n) (negsuc m) h = ground arith
same_int_sym (pos n) (negsuc m) h = cc
same_int_sym (negsuc n) (pos m) h = cc

-- The list without the first `fd`.
abbrev pub remove : ℤ → List ℤ → List ℤ
remove fd [] = []
remove fd (x ∷ xs) = let rest = remove fd xs in if same_int x fd then xs else x ∷ rest

remove_first : (fd : ℤ) (xs : List ℤ) → remove fd (fd ∷ xs) ≡ xs
remove_first fd xs = rw (same_int_refl fd) refl

-- The one of two is removed, and then the other.
remove_both : (a b : ℤ) (xs : List ℤ) → remove b (remove a (b ∷ a ∷ xs)) ≡ xs
remove_both a b xs = elim (Bool-cases (same_int b a)) [
  | inl same ↦ rw (same, same_int_sym b a same) refl
  | inr other ↦ rw (other, same_int_refl a, same_int_refl b) refl
]

module _ {K : Type 0} (host : Host K) (held : K → List ℤ) where
  -- A call that gives a descriptor adds it to those that are held.
  abbrev pub Gives : K → ℤ × K → Type 0
  Gives k (raw, k') = held k' ≡ (if is_negative raw then held k else raw ∷ held k)

  -- What the system does with the descriptors of the program.
  pub record Holds : Type 0 where
    pub socket : (k : K) → Gives k (host.socket k)
    pub close : (fd : ℤ) (k : K) → held (host.posix.close fd k) ≡ remove fd (held k)
    pub configure : (dev : Device) (k : K) → held (host.configure dev k).1 ≡ held k

  -- A result of `new` on the state `k`, and the state behind it.
  abbrev pub Keeps : List ℤ → Outcome Error Device × K → Type 0
  Keeps before (ok dev, k) = held k ≡ dev.ctl.raw ∷ dev.tun.raw ∷ before
  Keeps before (err e, k) = held k ≡ before
  Keeps before (panicked, k) = ⊥

  abbrev pub Owns : List ℤ → (IoError ⊎ Fd) × K → Type 0
  Owns before (inl e, k) = held k ≡ before
  Owns before (inr fd, k) = (held k ≡ fd.raw ∷ before) × (is_negative fd.raw ≡ false)

  pub owned-Owns : (k : K) (r : ℤ × K) → Gives k r → Owns (held k) (owned host r)
  unfolding owned Fd.new
  owned-Owns k (pos n, k') h = (h, refl)
  owned-Owns k (negsuc n, k') h = h

  module _ (holds : Holds) (before : List ℤ) where
    pub drop_one :
        (fd : Fd) (k : K)
        → held k ≡ fd.raw ∷ before
        → is_negative fd.raw ≡ false
        → held (Fd.drop host.posix fd k) ≡ before
    unfolding Fd.drop
    drop_one fd k h valid = rw (valid, holds.close fd.raw k, h) (remove_first fd.raw before)

    drop_two :
        (dev : Device) (k : K)
        → held k ≡ dev.ctl.raw ∷ dev.tun.raw ∷ before
        → is_negative dev.tun.raw ≡ false
        → is_negative dev.ctl.raw ≡ false
        → held (drop_device host dev k) ≡ before
    unfolding drop_device Fd.drop
    drop_two dev k h tun ctl =
        rw
          (
            tun,
            ctl,
            holds.close dev.ctl.raw (host.posix.close dev.tun.raw k),
            holds.close dev.tun.raw k,
            h,
          )
          (remove_both dev.tun.raw dev.ctl.raw before)

    configured-Keeps :
        (dev : Device) (r : (Error ⊎ Unit {0}) × K)
        → held r.1 ≡ dev.ctl.raw ∷ dev.tun.raw ∷ before
        → is_negative dev.tun.raw ≡ false
        → is_negative dev.ctl.raw ≡ false
        → Keeps before (configured host dev r)
    configured-Keeps dev (inl e, k) h tun ctl = drop_two dev k h tun ctl
    configured-Keeps dev (inr _, k) h tun ctl = h

    pub with_ctl-Keeps :
        (tun : Fd) (name : List ℕ) (r : (IoError ⊎ Fd) × K)
        → Owns (tun.raw ∷ before) r
        → is_negative tun.raw ≡ false
        → Keeps before (with_ctl host tun name r)
    with_ctl-Keeps tun name (inl e, k) h valid = drop_one tun k h valid
    with_ctl-Keeps tun name (inr ctl, k) h valid =
        configured-Keeps _ (host.configure _ k) (holds.configure _ k ∙ h.0) valid h.1
