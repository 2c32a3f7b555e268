-- ===== src/Tuntap/Device/Settings.antt =====
-- What is set on an interface is read back, and which flags are turned.
use tache_rs.Prelude.{ℕ, ◌/◌, ◌%◌, ◌≡◌, refl, ap, arith, true, false, List, inl, inr, ◌⊎◌, All}
use tache_rs.Std.Exec.{Outcome, ok, err}
use tache_rs.Std.Int.{ℤ}
use tache_rs.Std.Io.{IoError}
use tache_rs.Std.Net.{Ipv4Addr, IsByte, octets_v4}
use tache_rs.Std.Array.{filled}
use tache_rs.Tuntap.Error.{Error, io}
use tache_rs.Tuntap.SockAddr.{Sockaddr, from_ipv4, into_sockaddr}
use tache_rs.Tuntap.SockAddr.RoundTrip.{sockaddr_round_trip}
use tache_rs.Tuntap.Device.{
  Device, Ioctls, Syscall, request, get_addr, put_addr, returned, address, set_address, destination,
  set_destination, broadcast, set_broadcast, netmask, set_netmask, mtu, set_mtu, enabled, flags_for,
  set_bit, clear_bit,
}
use tache_rs.Tuntap.Device.Names.{HasShortName, copy_short}

-- The system keeps what one of its calls was given, until another one is made.
abbrev pub Keeps :
    (K A : Type 0) → (ℤ → List ℕ → A → Syscall K Unit) → (ℤ → List ℕ → Syscall K A) → Type 0
Keeps K A set get =
    (fd : ℤ) (name : List ℕ) (value : A) (k k' : K)
    → set fd name value k ≡ (inr tt, k')
    → get fd name k' ≡ (inr value, k')

module _ {K : Type 0} where
  pub succeeded :
      (r : (IoError ⊎ Unit {0}) × K) (k' : K)
      → returned {S = K} {A = Unit {0}} r ≡ (ok tt, k')
      → r ≡ (inr tt, k')
  succeeded (inl e, k) k' h =
      let f : err (io e) ≡ ok tt = ap (λ (p : Outcome Error Unit × K). p.0) h in cc
  succeeded (inr _, k) k' h = ap (λ (p : Outcome Error Unit × K). (inr tt, p.1)) h

  module _ (dev : Device) (short : HasShortName dev) (k k' : K) where
    pub addr_kept :
        (set : ℤ → List ℕ → Sockaddr → Syscall K Unit) (get : ℤ → List ℕ → Syscall K Sockaddr)
        (ip : Ipv4Addr)
        → Keeps K Sockaddr set get
        → All IsByte (octets_v4 ip)
        → put_addr set dev ip k ≡ (ok tt, k')
        → get_addr get dev k' ≡ (ok ip, k')
    unfolding put_addr get_addr request
    addr_kept set get ip keeps bytes h =
        let sock = into_sockaddr (from_ipv4 ip) in
        let trip = sockaddr_round_trip ip bytes in
        let done : set dev.ctl.raw (filled dev.name 16) sock k ≡ (inr tt, k') =
          succeeded _ k' (rw (copy_short dev.name k short) at h) in
        rw
          (
            copy_short dev.name k' short,
            keeps dev.ctl.raw (filled dev.name 16) sock k k' done,
            trip.1,
            trip.2,
          )
          refl

    mtu_kept :
        (ioctls : Ioctls K) (value : ℤ)
        → Keeps K ℤ ioctls.siocsifmtu ioctls.siocgifmtu
        → set_mtu ioctls dev value k ≡ (ok tt, k')
        → mtu ioctls dev k' ≡ (ok value, k')
    unfolding set_mtu mtu request
    mtu_kept ioctls value keeps h =
        let done : ioctls.siocsifmtu dev.ctl.raw (filled dev.name 16) value k ≡ (inr tt, k') =
          succeeded _ k' (rw (copy_short dev.name k short) at h) in
        rw (copy_short dev.name k' short, keeps dev.ctl.raw (filled dev.name 16) value k k' done)
          refl

-- What the system keeps of an interface.
pub record KeepsSettings {K : Type 0} (ioctls : Ioctls K) : Type 0 where
  pub addr : Keeps K Sockaddr ioctls.siocsifaddr ioctls.siocgifaddr
  pub dstaddr : Keeps K Sockaddr ioctls.siocsifdstaddr ioctls.siocgifdstaddr
  pub brdaddr : Keeps K Sockaddr ioctls.siocsifbrdaddr ioctls.siocgifbrdaddr
  pub netmask : Keeps K Sockaddr ioctls.siocsifnetmask ioctls.siocgifnetmask
  pub mtu : Keeps K ℤ ioctls.siocsifmtu ioctls.siocgifmtu

-- Where the system keeps what it was given, an address of four octets that was set without an
-- error on an interface with a name of at most 15 bytes is read back as the same address, and
-- the MTU likewise.
pub settings_read_back :
    {K : Type 0}
    → (ioctls : Ioctls K) (dev : Device) (a b c d : Ipv4Addr) (value : ℤ) (k ka kb kc kd km : K)
    → KeepsSettings ioctls
    → HasShortName dev
    → All IsByte (octets_v4 a)
    → All IsByte (octets_v4 b)
    → All IsByte (octets_v4 c)
    → All IsByte (octets_v4 d)
    → set_address ioctls dev a k ≡ (ok tt, ka)
    → set_destination ioctls dev b k ≡ (ok tt, kb)
    → set_broadcast ioctls dev c k ≡ (ok tt, kc)
    → set_netmask ioctls dev d k ≡ (ok tt, kd)
    → set_mtu ioctls dev value k ≡ (ok tt, km)
    → (address ioctls dev ka ≡ (ok a, ka))
      × (destination ioctls dev kb ≡ (ok b, kb))
      × (broadcast ioctls dev kc ≡ (ok c, kc))
      × (netmask ioctls dev kd ≡ (ok d, kd))
      × (mtu ioctls dev km ≡ (ok value, km))
unfolding set_address address set_destination destination set_broadcast broadcast set_netmask
    netmask
settings_read_back ioctls dev a b c d value k ka kb kc kd km keeps short ia ib ic id sa sb sc sd
      sm =
    (
      addr_kept dev short k ka ioctls.siocsifaddr ioctls.siocgifaddr a keeps.addr ia sa,
      addr_kept dev short k kb ioctls.siocsifdstaddr ioctls.siocgifdstaddr b keeps.dstaddr ib sb,
      addr_kept dev short k kc ioctls.siocsifbrdaddr ioctls.siocgifbrdaddr c keeps.brdaddr ic sc,
      addr_kept dev short k kd ioctls.siocsifnetmask ioctls.siocgifnetmask d keeps.netmask id sd,
      mtu_kept dev short k km ioctls value keeps.mtu sm,
    )

-- Bit `n` of the flags.
abbrev pub bit : ℕ → ℕ → ℕ
bit n flags = flags / n % 2

-- On an interface with a name of at most 15 bytes, `enabled` gives the flags that it has read
-- back to the system with the bits of 1 and 64 set, or with that of 1 cleared, and with all
-- others as they were.
pub enabled_flags :
    {K : Type 0}
    → (ioctls : Ioctls K) (dev : Device) (flags : ℕ) (k k' : K) → HasShortName dev
    → ioctls.siocgifflags dev.ctl.raw (filled dev.name 16) k ≡ (inr flags, k')
    → (on : ℕ) × (off : ℕ) × (enabled ioctls dev true k
        ≡ returned (ioctls.siocsifflags dev.ctl.raw (filled dev.name 16) on k'))
      × (enabled ioctls dev false k
          ≡ returned (ioctls.siocsifflags dev.ctl.raw (filled dev.name 16) off k'))
      × (bit 1 on ≡ 1)
      × (bit 64 on ≡ 1)
      × (on / 2 % 32 ≡ flags / 2 % 32)
      × (on / 128 ≡ flags / 128)
      × (bit 1 off ≡ 0)
      × (off / 2 ≡ flags / 2)
unfolding enabled request flags_for set_bit clear_bit
enabled_flags ioctls dev flags k k' short reads = (
  flags_for true flags,
  flags_for false flags,
  rw (copy_short dev.name k short, reads) refl,
  rw (copy_short dev.name k short, reads) refl,
  ground arith,
  ground arith,
  ground arith,
  ground arith,
  ground arith,
  ground arith,
)
