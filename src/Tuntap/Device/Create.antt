-- ===== src/Tuntap/Device/Create.antt =====
-- platform/linux/device.rs: `Device::new`. The system calls are parameters.
pub mod Held
use tache_rs.Prelude.{
  ℕ, ◌+◌, Bool, true, false, ◌==◌, ltb, if◌then◌else◌, Option, none, some, List, [], ◌∷◌, ◌⊎◌, inl,
  inr, length, replicate,
}
use tache_rs.Std.Exec.{Outcome, ok, err, panicked}
use tache_rs.Std.Int.{ℤ}
use tache_rs.Std.Io.{IoError}
use tache_rs.Std.Array.{overwrite}
use tache_rs.Tuntap.Error.{Error, nul_in_name, name_too_long, io}
use tache_rs.Tuntap.Fd
use tache_rs.Tuntap.Fd.{Fd}
use tache_rs.Tuntap.Builder.{Configuration}
use tache_rs.Tuntap.Opening.{Host, owned, drop_device, with_ctl}
use tache_rs.Tuntap.Device.{Device, Syscall, ifnamsiz, has_nul}

abbrev pub iff_tun : ℕ
iff_tun = 0x0001

abbrev pub iff_no_pi : ℕ
iff_no_pi = 0x1000

pub record Creation (K : Type 0) : Type 0 where
  pub host : Host K
  pub open_tun : K → ℤ × K
  -- The name and the flags of the request; the call writes the name that was chosen.
  pub tunsetiff : ℤ → List ℕ → ℕ → Syscall K (List ℕ)

-- `CString::new`, and the check of its length.
abbrev pub check_name : Option (List ℕ) → Outcome Error (List ℕ)
check_name none = ok []
check_name (some name) =
    if has_nul name
    then err nul_in_name
    else if ltb ifnamsiz (length name + 1)
    then err name_too_long
    else ok name

unfoldable pub flags_of : Bool → ℕ
flags_of packet_information = iff_tun + (if packet_information then 0 else iff_no_pi)

module _ {K : Type 0} (sys : Creation K) where
  -- With the interface.
  abbrev pub with_interface : Fd → (IoError ⊎ List ℕ) × K → Outcome Error Device × K
  with_interface tun (inl e, k) = (err (io e), Fd.drop sys.host.posix tun k)
  with_interface tun (inr name, k) = with_ctl sys.host tun name (owned sys.host (sys.host.socket k))

  -- With the request, which is an array of 16 bytes; `panicked` is a copy outside of it.
  abbrev pub with_request : Fd → ℕ → Option (List ℕ) → K → Outcome Error Device × K
  with_request tun flags none k = (panicked, k)
  with_request tun flags (some req) k = with_interface tun (sys.tunsetiff tun.raw req flags k)

  -- With the descriptor of the interface.
  abbrev pub with_tun : List ℕ → ℕ → (IoError ⊎ Fd) × K → Outcome Error Device × K
  with_tun name flags (inl e, k) = (err (io e), k)
  with_tun name flags (inr tun, k) =
      with_request tun flags (overwrite 0 name (replicate ifnamsiz 0)) k

  abbrev pub with_name : Outcome Error (List ℕ) → ℕ → K → Outcome Error Device × K
  with_name (ok name) flags k = with_tun name flags (owned sys.host (sys.open_tun k))
  with_name (err e) flags k = (err e, k)
  with_name panicked flags k = (panicked, k)

  unfoldable pub new : Configuration → K → Outcome Error Device × K
  unfolding owned drop_device flags_of
  new config k = with_name (check_name config.name) (flags_of config.platform.packet_information) k
