-- ===== src/Tuntap/Macos/Create.antt =====
-- platform/macos/device.rs: `Device::new`. The system calls are parameters.
use tache_rs.Prelude.{
  ℕ, ◌-◌, ◌==◌, ltb, if◌then◌else◌, Bool, true, false, Option, none, some, List, [], ◌∷◌, ◌++◌, ◌⊎◌,
  inl, inr, length, drop, replicate,
}
use tache_rs.Std.Exec.{Outcome, ok, err, panicked}
use tache_rs.Std.Int.{ℤ, pos, negsuc}
use tache_rs.Std.Io.{IoError}
use tache_rs.Std.Text.{text}
use tache_rs.Std.Parse.{parse_i32}
use tache_rs.Tuntap.Error.{Error, name_too_long, invalid_name, invalid_number, io}
use tache_rs.Tuntap.Fd
use tache_rs.Tuntap.Fd.{Fd}
use tache_rs.Tuntap.Device.{Device, Syscall}
use tache_rs.Tuntap.Builder.{Configuration}
use tache_rs.Tuntap.Opening.{Host, owned, drop_device, with_ctl}

abbrev pub ifnamsiz : ℕ
ifnamsiz = 16

abbrev pub af_sys_control : ℕ
af_sys_control = 2

abbrev pub af_system : ℕ
af_system = 32

abbrev pub utun_control_name : List ℕ
utun_control_name = text "com.apple.net.utun_control"

-- `sockaddr_ctl`, whose size is 32 bytes.
pub record SockaddrCtl : Type 0 where
  pub sc_len : ℕ
  pub sc_family : ℕ
  pub ss_sysaddr : ℕ
  pub sc_id : ℕ
  pub sc_unit : ℕ
  pub sc_reserved : List ℕ

pub record Creation (K : Type 0) : Type 0 where
  pub host : Host K
  -- The socket of the tunnel.
  pub socket_system : K → ℤ × K
  -- The identifier of the control with this name, in 96 bytes.
  pub ctliocginfo : ℤ → List ℕ → Syscall K ℕ
  pub connect : ℤ → SockaddrCtl → Syscall K (Unit {0})
  -- The name of the interface, in 64 bytes.
  pub getsockopt : ℤ → Syscall K (List ℕ)

abbrev pub starts_with : List ℕ → List ℕ → Bool
starts_with [] s = true
starts_with (p ∷ ps) [] = false
starts_with (p ∷ ps) (c ∷ cs) = if p == c then starts_with ps cs else false

-- `.parse()?`
abbrev pub parsed : Option ℤ → Outcome Error ℤ
parsed none = err invalid_number
parsed (some n) = ok n

unfoldable pub unit_of : Option (List ℕ) → Outcome Error ℤ
unfolding parse_i32
unit_of none = ok (pos 0)
unit_of (some name) =
    if ltb ifnamsiz (length name)
    then err name_too_long
    else if starts_with (text "utun") name
    then parsed (parse_i32 (drop 4 name))
    else err invalid_name

-- `id as c_uint`
abbrev pub as_c_uint : ℤ → ℕ
as_c_uint (pos n) = n
as_c_uint (negsuc n) = 0xffffffff - n

-- The text over the front of an array of 96 zeros; it is shorter.
abbrev pub ctl_name : List ℕ
ctl_name = utun_control_name ++ replicate (96 - length utun_control_name) 0

abbrev pub control : ℤ → ℕ → SockaddrCtl
control id ctl_id = record {
  sc_len = 32;
  sc_family = af_system;
  ss_sysaddr = af_sys_control;
  sc_id = ctl_id;
  sc_unit = as_c_uint id;
  sc_reserved = replicate 5 0;
}

module _ {K : Type 0} (sys : Creation K) where
  -- With the name that the system gave.
  abbrev pub with_name : Fd → (IoError ⊎ List ℕ) × K → Outcome Error Device × K
  with_name tun (inl e, k) = (err (io e), Fd.drop sys.host.posix tun k)
  with_name tun (inr name, k) = with_ctl sys.host tun name (owned sys.host (sys.host.socket k))

  abbrev pub connected : Fd → (IoError ⊎ Unit {0}) × K → Outcome Error Device × K
  connected tun (inl e, k) = (err (io e), Fd.drop sys.host.posix tun k)
  connected tun (inr _, k) = with_name tun (sys.getsockopt tun.raw k)

  -- With the identifier of the control.
  abbrev pub with_info : ℤ → Fd → (IoError ⊎ ℕ) × K → Outcome Error Device × K
  with_info id tun (inl e, k) = (err (io e), Fd.drop sys.host.posix tun k)
  with_info id tun (inr ctl_id, k) = connected tun (sys.connect tun.raw (control id ctl_id) k)

  abbrev pub with_tun : ℤ → (IoError ⊎ Fd) × K → Outcome Error Device × K
  with_tun id (inl e, k) = (err (io e), k)
  with_tun id (inr tun, k) = with_info id tun (sys.ctliocginfo tun.raw ctl_name k)

  abbrev pub with_unit : Outcome Error ℤ → K → Outcome Error Device × K
  with_unit (ok id) k = with_tun id (owned sys.host (sys.socket_system k))
  with_unit (err e) k = (err e, k)
  with_unit panicked k = (panicked, k)

  unfoldable pub new : Configuration → K → Outcome Error Device × K
  unfolding owned drop_device unit_of
  new config k = with_unit (unit_of config.name) k
