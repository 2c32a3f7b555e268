-- ===== src/Tuntap/Macos/Settings.antt =====
-- What is set on an interface of macOS is read back.
use tache_rs.Prelude.{ℕ, ◌≡◌, refl, List, inr, All}
use tache_rs.Std.Exec.{ok}
use tache_rs.Std.Int.{ℤ}
use tache_rs.Std.Net.{Ipv4Addr, IsByte, octets_v4}
use tache_rs.Std.Array.{filled}
use tache_rs.Tuntap.SockAddr.{Sockaddr, from_ipv4, into_sockaddr}
use tache_rs.Tuntap.SockAddr.RoundTrip.{unchecked_any_family}
use tache_rs.Tuntap.Device.{Device, Syscall, request, put_addr}
use tache_rs.Tuntap.Device.Names.{HasShortName, copy_short}
use tache_rs.Tuntap.Device.Settings.{Keeps, succeeded, addr_kept}
use tache_rs.Tuntap.Macos.{
  Ioctls, address, set_address, destination, set_destination, broadcast, set_broadcast, netmask,
  set_netmask, mtu, set_mtu, get_unchecked,
}

-- The system keeps the address of what it was given, and may change the family.
abbrev pub KeepsData :
    (K : Type 0)
    → (ℤ → List ℕ → Sockaddr → Syscall K Unit)
    → (ℤ → List ℕ → Syscall K Sockaddr)
    → Type 0
KeepsData K set get =
    (fd : ℤ) (name : List ℕ) (value : Sockaddr) (k k' : K)
    → set fd name value k ≡ (inr tt, k')
    → (family : ℕ) × (get fd name k' ≡ (inr (record value { sa_family = family }), k'))

-- What the system keeps of an interface.
pub record KeepsSettings {K : Type 0} (ioctls : Ioctls K) : Type 0 where
  pub addr : Keeps K Sockaddr ioctls.siocsifaddr ioctls.siocgifaddr
  pub dstaddr : Keeps K Sockaddr ioctls.siocsifdstaddr ioctls.siocgifdstaddr
  pub brdaddr : Keeps K Sockaddr ioctls.siocsifbrdaddr ioctls.siocgifbrdaddr
  pub netmask : KeepsData K ioctls.siocsifnetmask ioctls.siocgifnetmask
  pub mtu : Keeps K ℤ ioctls.siocsifmtu ioctls.siocgifmtu

module _ {K : Type 0} (ioctls : Ioctls K) (dev : Device) (short : HasShortName dev) (k k' : K) where
  netmask_kept :
      (ip : Ipv4Addr)
      → KeepsData K ioctls.siocsifnetmask ioctls.siocgifnetmask
      → All IsByte (octets_v4 ip)
      → set_netmask ioctls dev ip k ≡ (ok tt, k')
      → netmask ioctls dev k' ≡ (ok ip, k')
  unfolding set_netmask netmask put_addr get_unchecked request
  netmask_kept ip keeps bytes h =
      let sock = into_sockaddr (from_ipv4 ip) in
      let done : ioctls.siocsifnetmask dev.ctl.raw (filled dev.name 16) sock k ≡ (inr tt, k') =
        succeeded _ k' (rw (copy_short dev.name k short) at h) in
      let (family, got) = keeps dev.ctl.raw (filled dev.name 16) sock k k' done in
      rw (copy_short dev.name k' short, got, unchecked_any_family ip family bytes) refl

  mtu_kept :
      (value : ℤ)
      → Keeps K ℤ ioctls.siocsifmtu ioctls.siocgifmtu
      → set_mtu ioctls dev value k ≡ (ok tt, k')
      → mtu ioctls dev k' ≡ (ok value, k')
  unfolding set_mtu mtu request
  mtu_kept value keeps h =
      let done : ioctls.siocsifmtu dev.ctl.raw (filled dev.name 16) value k ≡ (inr tt, k') =
        succeeded _ k' (rw (copy_short dev.name k short) at h) in
      rw (copy_short dev.name k' short, keeps dev.ctl.raw (filled dev.name 16) value k k' done) refl

-- Where macOS keeps what it was given, except that the family of a netmask may be another one,
-- an address of four octets that was set without an error on an interface with a name of at
-- most 15 bytes is read back as the same address, the netmask whatever its family is, and the
-- MTU likewise.
pub utun_read_back :
    {K : Type 0}
    → (ioctls : Ioctls K) (dev : Device) (a b c d : Ipv4Addr) (value : ℤ) (k ka kb kc kd km : K)
    → KeepsSettings ioctls
    → HasShortName dev
    → All IsByte (octets_v4 a)
    → All IsByte (octets_v4 b)
    → All IsByte (octets_v4 c)
    → All IsByte (octets_v4 d)
    → set_address ioctls dev a k ≡ (ok tt, ka)
    → set_destination ioctls dev b k ≡ (ok tt, kb)
    → set_broadcast ioctls dev c k ≡ (ok tt, kc)
    → set_netmask ioctls dev d k ≡ (ok tt, kd)
    → set_mtu ioctls dev value k ≡ (ok tt, km)
    → (address ioctls dev ka ≡ (ok a, ka))
      × (destination ioctls dev kb ≡ (ok b, kb))
      × (broadcast ioctls dev kc ≡ (ok c, kc))
      × (netmask ioctls dev kd ≡ (ok d, kd))
      × (mtu ioctls dev km ≡ (ok value, km))
unfolding set_address address set_destination destination set_broadcast broadcast
utun_read_back ioctls dev a b c d value k ka kb kc kd km keeps short ia ib ic id sa sb sc sd sm = (
  addr_kept dev short k ka ioctls.siocsifaddr ioctls.siocgifaddr a keeps.addr ia sa,
  addr_kept dev short k kb ioctls.siocsifdstaddr ioctls.siocgifdstaddr b keeps.dstaddr ib sb,
  addr_kept dev short k kc ioctls.siocsifbrdaddr ioctls.siocgifbrdaddr c keeps.brdaddr ic sc,
  netmask_kept ioctls dev short k kd d keeps.netmask id sd,
  mtu_kept ioctls dev short k km value keeps.mtu sm,
)
