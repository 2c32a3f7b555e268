-- ===== src/Tuntap/Device.antt =====
-- platform/linux/device.rs: an interface by its name. The `ioctl` calls, on the state `K` of the
-- system, are parameters: each takes a descriptor and the 16 bytes of the request's name.
-- `panicked` stands here for a copy outside of these 16 bytes.
pub mod Create
pub mod Names
pub mod Settings
use tache_rs.Prelude.{
  ℕ, ◌+◌, ◌-◌, ◌/◌, ◌%◌, Bool, true, false, ◌==◌, ltb, if◌then◌else◌, Option, none, some, List, [],
  ◌∷◌, ◌++◌, length, replicate, ◌⊎◌, inl, inr,
}
use tache_rs.Std.Exec.{Exec, Outcome, ok, err, panicked, pure, fail, ◌>>=◌, ◌>>◌, map_err, convert}
use tache_rs.Std.Int.{ℤ, pos}
use tache_rs.Std.Io.{IoError}
use tache_rs.Std.Net.{Ipv4Addr}
use tache_rs.Std.Array.{overwrite}
use tache_rs.Tuntap.Error.{Error, nul_in_name, name_too_long, io}
use tache_rs.Tuntap.Fd.{Fd}
use tache_rs.Tuntap.SockAddr.{Sockaddr, SockAddr, from_ipv4, into_ipv4, into_sockaddr}
use tache_rs.Tuntap.SockAddr

abbrev pub ifnamsiz : ℕ
ifnamsiz = 16

abbrev pub iff_up : ℕ
iff_up = 0x1

abbrev pub iff_running : ℕ
iff_running = 0x40

-- A call of the system: it gives `errno` or a result.
abbrev pub Syscall : Type 0 → Type 0 → Type 0
Syscall K A = K → (IoError ⊎ A) × K

pub record Ioctls (K : Type 0) : Type 0 where
  pub siocgifflags : ℤ → List ℕ → Syscall K ℕ
  pub siocsifflags : ℤ → List ℕ → ℕ → Syscall K Unit
  pub siocgifaddr : ℤ → List ℕ → Syscall K Sockaddr
  pub siocsifaddr : ℤ → List ℕ → Sockaddr → Syscall K Unit
  pub siocgifdstaddr : ℤ → List ℕ → Syscall K Sockaddr
  pub siocsifdstaddr : ℤ → List ℕ → Sockaddr → Syscall K Unit
  pub siocgifbrdaddr : ℤ → List ℕ → Syscall K Sockaddr
  pub siocsifbrdaddr : ℤ → List ℕ → Sockaddr → Syscall K Unit
  pub siocgifnetmask : ℤ → List ℕ → Syscall K Sockaddr
  pub siocsifnetmask : ℤ → List ℕ → Sockaddr → Syscall K Unit
  pub siocgifmtu : ℤ → List ℕ → Syscall K ℤ
  pub siocsifmtu : ℤ → List ℕ → ℤ → Syscall K Unit
  pub siocsifname : ℤ → List ℕ → List ℕ → Syscall K Unit
  pub tunsetpersist : ℤ → ℤ → Syscall K Unit
  pub tunsetowner : ℤ → ℤ → Syscall K Unit
  pub tunsetgroup : ℤ → ℤ → Syscall K Unit

pub record Device : Type 0 where
  pub name : List ℕ
  pub tun : Fd
  pub ctl : Fd

-- `|=` and `&= !` of one bit.
unfoldable pub set_bit : ℕ → ℕ → ℕ
set_bit bit n = if n / bit % 2 == 1 then n else n + bit

unfoldable pub clear_bit : ℕ → ℕ → ℕ
clear_bit bit n = if n / bit % 2 == 1 then n - bit else n

unfoldable pub flags_for : Bool → ℕ → ℕ
unfolding set_bit clear_bit
flags_for true flags = set_bit iff_running (set_bit iff_up flags)
flags_for false flags = clear_bit iff_up flags

abbrev pub has_nul : List ℕ → Bool
has_nul [] = false
has_nul (c ∷ cs) = if c == 0 then true else has_nul cs

-- A text copied to an array of 16 zeros.
module _ {S A : Type 0} where
  abbrev or_outside : Option A → Exec S Error A
  or_outside none s = (panicked, s)
  or_outside (some a) s = (ok a, s)

  abbrev pub returned : (IoError ⊎ A) × S → Outcome Error A × S
  returned (inl e, s) = (err (io e), s)
  returned (inr a, s) = (ok a, s)

  abbrev pub call : Syscall S A → Exec S Error A
  call m s = returned (m s)

module _ {K : Type 0} where
  unfoldable pub copy_name : List ℕ → Exec K Error (List ℕ)
  copy_name name = or_outside (overwrite 0 name (replicate ifnamsiz 0))

  unfoldable pub request : Device → Exec K Error (List ℕ)
  unfolding copy_name
  request dev = copy_name dev.name

  -- `SockAddr::new(...).map(Into::into)`
  abbrev as_address : Outcome Error SockAddr → Exec K Error Ipv4Addr
  as_address (ok addr) s = (ok (into_ipv4 addr), s)
  as_address (err e) s = (err e, s)
  as_address panicked s = (panicked, s)

  unfoldable pub get_addr : (ℤ → List ℕ → Syscall K Sockaddr) → Device → Exec K Error Ipv4Addr
  unfolding request
  get_addr ioctl dev = do
    req ← request dev
    addr ← call (ioctl dev.ctl.raw req)
    as_address (SockAddr.new addr)

  unfoldable pub put_addr :
      (ℤ → List ℕ → Sockaddr → Syscall K Unit) → Device → Ipv4Addr → Exec K Error Unit
  unfolding request
  put_addr ioctl dev value = do
    req ← request dev
    call (ioctl dev.ctl.raw req (into_sockaddr (from_ipv4 value)))

module _ {K : Type 0} (ioctls : Ioctls K) where
  open ioctls use {
    siocgifflags, siocsifflags, siocgifaddr, siocsifaddr, siocgifdstaddr, siocsifdstaddr,
    siocgifbrdaddr, siocsifbrdaddr, siocgifnetmask, siocsifnetmask, siocgifmtu, siocsifmtu,
    siocsifname, tunsetpersist, tunsetowner, tunsetgroup,
  }

  unfoldable pub persist : Device → Exec K Error Unit
  persist dev = call (tunsetpersist dev.tun.raw (pos 1))

  unfoldable pub user : Device → ℤ → Exec K Error Unit
  user dev value = call (tunsetowner dev.tun.raw value)

  unfoldable pub group : Device → ℤ → Exec K Error Unit
  group dev value = call (tunsetgroup dev.tun.raw value)

  unfoldable pub enabled : Device → Bool → Exec K Error Unit
  unfolding request flags_for
  enabled dev value = do
    req ← request dev
    flags ← call (siocgifflags dev.ctl.raw req)
    call (siocsifflags dev.ctl.raw req (flags_for value flags))

  unfoldable pub address : Device → Exec K Error Ipv4Addr
  unfolding get_addr
  address dev = get_addr siocgifaddr dev

  unfoldable pub set_address : Device → Ipv4Addr → Exec K Error Unit
  unfolding put_addr
  set_address dev value = put_addr siocsifaddr dev value

  unfoldable pub destination : Device → Exec K Error Ipv4Addr
  unfolding get_addr
  destination dev = get_addr siocgifdstaddr dev

  unfoldable pub set_destination : Device → Ipv4Addr → Exec K Error Unit
  unfolding put_addr
  set_destination dev value = put_addr siocsifdstaddr dev value

  unfoldable pub broadcast : Device → Exec K Error Ipv4Addr
  unfolding get_addr
  broadcast dev = get_addr siocgifbrdaddr dev

  unfoldable pub set_broadcast : Device → Ipv4Addr → Exec K Error Unit
  unfolding put_addr
  set_broadcast dev value = put_addr siocsifbrdaddr dev value

  unfoldable pub netmask : Device → Exec K Error Ipv4Addr
  unfolding get_addr
  netmask dev = get_addr siocgifnetmask dev

  unfoldable pub set_netmask : Device → Ipv4Addr → Exec K Error Unit
  unfolding put_addr
  set_netmask dev value = put_addr siocsifnetmask dev value

  unfoldable pub mtu : Device → Exec K Error ℤ
  unfolding request
  mtu dev = do req ← request dev; call (siocgifmtu dev.ctl.raw req)

  unfoldable pub set_mtu : Device → ℤ → Exec K Error Unit
  unfolding request
  set_mtu dev value = do req ← request dev; call (siocsifmtu dev.ctl.raw req value)

  -- The name is kept only if the system took it.
  abbrev renamed : List ℕ → Device → Outcome Error Unit × K → Outcome Error Unit × (Device × K)
  renamed value dev (ok _, k) = (ok tt, (record dev { name = value }, k))
  renamed value dev (err e, k) = (err e, (dev, k))
  renamed value dev (panicked, k) = (panicked, (dev, k))

  abbrev rename : Device → List ℕ → Exec K Error Unit
  rename dev value = do
    req ← request dev
    newname ← copy_name value
    call (siocsifname dev.ctl.raw req newname)

  -- `CString::new`, and its length with the byte at its end.
  unfoldable pub set_name : List ℕ → Exec (Device × K) Error Unit
  unfolding request copy_name
  set_name value (dev, k) =
      if has_nul value
      then (err nul_in_name, (dev, k))
      else if ltb ifnamsiz (length value + 1)
      then (err name_too_long, (dev, k))
      else renamed value dev (rename dev value k)
