-- ===== src/Tuntap/Macos.antt =====
-- platform/macos/device.rs and sys.rs: an interface of macOS. Its requests are built as those of Linux
-- are, and the `ioctl` calls are parameters in the same way.
pub mod Create
pub mod Held
pub mod Settings
use tache_rs.Prelude.{ℕ, Bool, List}
use tache_rs.Std.Exec.{Exec, Outcome, ok, err, pure, ◌>>=◌, ◌>>◌}
use tache_rs.Std.Int.{ℤ}
use tache_rs.Std.Io.{IoError}
use tache_rs.Std.Net.{Ipv4Addr}
use tache_rs.Tuntap.Error.{Error, invalid_name}
use tache_rs.Tuntap.SockAddr.{Sockaddr, from_ipv4, into_ipv4, into_sockaddr, unchecked}
use tache_rs.Tuntap.Device.{
  Device, Syscall, call, copy_name, request, get_addr, put_addr, flags_for,
}

pub record Ioctls (K : Type 0) : Type 0 where
  pub siocgifflags : ℤ → List ℕ → Syscall K ℕ
  pub siocsifflags : ℤ → List ℕ → ℕ → Syscall K Unit
  pub siocgifaddr : ℤ → List ℕ → Syscall K Sockaddr
  pub siocsifaddr : ℤ → List ℕ → Sockaddr → Syscall K Unit
  pub siocgifdstaddr : ℤ → List ℕ → Syscall K Sockaddr
  pub siocsifdstaddr : ℤ → List ℕ → Sockaddr → Syscall K Unit
  pub siocgifbrdaddr : ℤ → List ℕ → Syscall K Sockaddr
  pub siocsifbrdaddr : ℤ → List ℕ → Sockaddr → Syscall K Unit
  pub siocgifnetmask : ℤ → List ℕ → Syscall K Sockaddr
  pub siocsifnetmask : ℤ → List ℕ → Sockaddr → Syscall K Unit
  pub siocgifmtu : ℤ → List ℕ → Syscall K ℤ
  pub siocsifmtu : ℤ → List ℕ → ℤ → Syscall K Unit
  -- The address, the broadcast address and the mask of an alias.
  pub siocaifaddr : ℤ → List ℕ → Sockaddr → Sockaddr → Sockaddr → Syscall K Unit

module _ {K : Type 0} where
  -- `SockAddr::unchecked(...).map(Into::into)`: no check of the family.
  unfoldable pub get_unchecked : (ℤ → List ℕ → Syscall K Sockaddr) → Device → Exec K Error Ipv4Addr
  unfolding request unchecked
  get_unchecked ioctl dev = do
    req ← request dev
    addr ← call (ioctl dev.ctl.raw req)
    pure (into_ipv4 (unchecked addr))

  -- The name of an interface cannot be set.
  unfoldable pub set_name : Device → List ℕ → Exec K Error Unit
  set_name dev value k = (err invalid_name, k)

module _ {K : Type 0} (ioctls : Ioctls K) where
  open ioctls use {
    siocgifflags, siocsifflags, siocgifaddr, siocsifaddr, siocgifdstaddr, siocsifdstaddr,
    siocgifbrdaddr, siocsifbrdaddr, siocgifnetmask, siocsifnetmask, siocgifmtu, siocsifmtu,
    siocaifaddr,
  }

  unfoldable pub set_alias : Device → Ipv4Addr → Ipv4Addr → Ipv4Addr → Exec K Error Unit
  unfolding copy_name
  set_alias dev addr broadaddr mask = do
    req ← copy_name dev.name
    call (
        siocaifaddr dev.ctl.raw req (into_sockaddr (from_ipv4 addr))
          (into_sockaddr (from_ipv4 broadaddr)) (into_sockaddr (from_ipv4 mask)))

  unfoldable pub enabled : Device → Bool → Exec K Error Unit
  unfolding request flags_for
  enabled dev value = do
    req ← request dev
    flags ← call (siocgifflags dev.ctl.raw req)
    call (siocsifflags dev.ctl.raw req (flags_for value flags))

  unfoldable pub address : Device → Exec K Error Ipv4Addr
  unfolding get_addr
  address dev = get_addr siocgifaddr dev

  unfoldable pub set_address : Device → Ipv4Addr → Exec K Error Unit
  unfolding put_addr
  set_address dev value = put_addr siocsifaddr dev value

  unfoldable pub destination : Device → Exec K Error Ipv4Addr
  unfolding get_addr
  destination dev = get_addr siocgifdstaddr dev

  unfoldable pub set_destination : Device → Ipv4Addr → Exec K Error Unit
  unfolding put_addr
  set_destination dev value = put_addr siocsifdstaddr dev value

  unfoldable pub broadcast : Device → Exec K Error Ipv4Addr
  unfolding get_addr
  broadcast dev = get_addr siocgifbrdaddr dev

  unfoldable pub set_broadcast : Device → Ipv4Addr → Exec K Error Unit
  unfolding put_addr
  set_broadcast dev value = put_addr siocsifbrdaddr dev value

  unfoldable pub netmask : Device → Exec K Error Ipv4Addr
  unfolding get_unchecked
  netmask dev = get_unchecked siocgifnetmask dev

  unfoldable pub set_netmask : Device → Ipv4Addr → Exec K Error Unit
  unfolding put_addr
  set_netmask dev value = put_addr siocsifnetmask dev value

  unfoldable pub mtu : Device → Exec K Error ℤ
  unfolding request
  mtu dev = do req ← request dev; call (siocgifmtu dev.ctl.raw req)

  unfoldable pub set_mtu : Device → ℤ → Exec K Error Unit
  unfolding request
  set_mtu dev value = do req ← request dev; call (siocsifmtu dev.ctl.raw req value)
