-- ===== src/Tests/Interfaces.antt =====
-- The crate tuntap.
use tache_rs.Prelude.{
  ℕ, ◌≡◌, ◌/◌, ◌%◌, refl, arith, inr, List, [], ◌∷◌, length, ap, sym, ◌⊎◌, true, false,
}
use tache_rs.Std.Io.{IoError, io_error, other}
use tache_rs.Std.Exec.{ok}
use tache_rs.Tuntap.Error.{invalid_address}
use tache_rs.Prelude.{inl}
use tache_rs.Std.Int.{ℤ, pos}
use tache_rs.Std.Text.{text}
use tache_rs.Std.Array.{filled, overwrite}
use tache_rs.Samples.{loopback}
use tache_rs.Tuntap.SockAddr.{Sockaddr, from_ipv4, into_sockaddr}
use tache_rs.Tuntap.Fd.{Posix}
use tache_rs.Tuntap.Device.{
  Device, Ioctls, returned, request, address, set_address, destination, set_destination, broadcast,
  set_broadcast, netmask, set_netmask, mtu, set_mtu, enabled, set_name, put_addr, copy_name,
}
use tache_rs.Tuntap.Device.Create.{Creation, new}
use tache_rs.Tuntap.Builder.{Configuration, interface_name, default}
use tache_rs.Tuntap.Opening.{Host}
use tache_rs.Tuntap.Opening.Held.{remove, Holds, Keeps}
use tache_rs.Tuntap.Device.Create.Held.{HoldsTun, new-Keeps}
use tache_rs.Tuntap.Device.Names.{IsRenaming, set_name-IsRenaming}
use tache_rs.Tuntap.Device.Settings.{KeepsSettings, settings_read_back, bit, enabled_flags}

-- The state is the list of the descriptors that were closed.
abbrev files : Posix (List ℤ)
files = record {
  read = λ fd n k. (ok [], k);
  write = λ fd buf k. (ok (length buf), k);
  close = λ fd k. fd ∷ k;
}

-- A system with one interface.
pub record Interface : Type 0 where
  pub flags : ℕ
  pub addr : Sockaddr
  pub dst : Sockaddr
  pub brd : Sockaddr
  pub mask : Sockaddr
  pub size : ℤ

abbrev pub one_interface : Ioctls Interface
one_interface = record {
  siocgifflags = λ fd name k. (inr k.flags, k);
  siocsifflags = λ fd name v k. (inr tt, record k { flags = v });
  siocgifaddr = λ fd name k. (inr k.addr, k);
  siocsifaddr = λ fd name v k. (inr tt, record k { addr = v });
  siocgifdstaddr = λ fd name k. (inr k.dst, k);
  siocsifdstaddr = λ fd name v k. (inr tt, record k { dst = v });
  siocgifbrdaddr = λ fd name k. (inr k.brd, k);
  siocsifbrdaddr = λ fd name v k. (inr tt, record k { brd = v });
  siocgifnetmask = λ fd name k. (inr k.mask, k);
  siocsifnetmask = λ fd name v k. (inr tt, record k { mask = v });
  siocgifmtu = λ fd name k. (inr k.size, k);
  siocsifmtu = λ fd name v k. (inr tt, record k { size = v });
  siocsifname = λ fd name v k. (inr tt, k);
  tunsetpersist = λ fd v k. (inr tt, k);
  tunsetowner = λ fd v k. (inr tt, k);
  tunsetgroup = λ fd v k. (inr tt, k);
}

abbrev no_address : Sockaddr
no_address = record { sa_family = 0; sa_data = [] }

abbrev pub down : Interface
down = record {
  flags = 0x1002;
  addr = no_address;
  dst = no_address;
  brd = no_address;
  mask = no_address;
  size = pos 1500;
}

abbrev pub tun0 : Device
tun0 = record { name = text "tun0"; tun = record { raw = pos 3 }; ctl = record { raw = pos 4 } }

set_name-IsRenaming_example :
    IsRenaming (text "tun1") tun0 (set_name one_interface (text "tun1") (tun0, down))
set_name-IsRenaming_example =
    set_name-IsRenaming one_interface (text "tun1") tun0 down (omega arith)

one_interface-KeepsSettings : KeepsSettings one_interface
one_interface-KeepsSettings = record {
  addr = λ fd name value k k' h.
      ap (λ (x : Sockaddr). (inr x, k'))
        (sym (ap (λ (p : (IoError ⊎ Unit {0}) × Interface). p.1.addr) h));
  dstaddr = λ fd name value k k' h.
      ap (λ (x : Sockaddr). (inr x, k'))
        (sym (ap (λ (p : (IoError ⊎ Unit {0}) × Interface). p.1.dst) h));
  brdaddr = λ fd name value k k' h.
      ap (λ (x : Sockaddr). (inr x, k'))
        (sym (ap (λ (p : (IoError ⊎ Unit {0}) × Interface). p.1.brd) h));
  netmask = λ fd name value k k' h.
      ap (λ (x : Sockaddr). (inr x, k'))
        (sym (ap (λ (p : (IoError ⊎ Unit {0}) × Interface). p.1.mask) h));
  mtu = λ fd name value k k' h.
      ap (λ (x : ℤ). (inr x, k')) (sym (ap (λ (p : (IoError ⊎ Unit {0}) × Interface). p.1.size) h));
}

abbrev pub stored : Sockaddr
stored = into_sockaddr (from_ipv4 loopback)

set_address_done :
    set_address one_interface tun0 loopback down ≡ (ok tt, record down { addr = stored })
unfolding set_address put_addr request copy_name overwrite
set_address_done = refl

set_destination_done :
    set_destination one_interface tun0 loopback down ≡ (ok tt, record down { dst = stored })
unfolding set_destination put_addr request copy_name overwrite
set_destination_done = refl

set_broadcast_done :
    set_broadcast one_interface tun0 loopback down ≡ (ok tt, record down { brd = stored })
unfolding set_broadcast put_addr request copy_name overwrite
set_broadcast_done = refl

set_netmask_done :
    set_netmask one_interface tun0 loopback down ≡ (ok tt, record down { mask = stored })
unfolding set_netmask put_addr request copy_name overwrite
set_netmask_done = refl

set_mtu_done : set_mtu one_interface tun0 (pos 1400) down ≡ (ok tt, record down { size = pos 1400 })
unfolding set_mtu request copy_name overwrite
set_mtu_done = refl

settings_read_back_example :
    (address one_interface tun0 (record down { addr = stored })
      ≡ (ok loopback, record down { addr = stored }))
    × (destination one_interface tun0 (record down { dst = stored })
        ≡ (ok loopback, record down { dst = stored }))
    × (broadcast one_interface tun0 (record down { brd = stored })
        ≡ (ok loopback, record down { brd = stored }))
    × (netmask one_interface tun0 (record down { mask = stored })
        ≡ (ok loopback, record down { mask = stored }))
    × (mtu one_interface tun0 (record down { size = pos 1400 })
        ≡ (ok (pos 1400), record down { size = pos 1400 }))
settings_read_back_example =
    settings_read_back one_interface tun0 loopback loopback loopback loopback (pos 1400) down
      (record down { addr = stored }) (record down { dst = stored }) (record down { brd = stored })
      (record down { mask = stored }) (record down { size = pos 1400 }) one_interface-KeepsSettings
      (omega arith) (omega arith) (omega arith) (omega arith) (omega arith) set_address_done
      set_destination_done set_broadcast_done set_netmask_done set_mtu_done

enabled_flags_example :
    (on : ℕ) × (off : ℕ) × (enabled one_interface tun0 true down
      ≡ returned (one_interface.siocsifflags (pos 4) (filled (text "tun0") 16) on down))
    × (enabled one_interface tun0 false down
        ≡ returned (one_interface.siocsifflags (pos 4) (filled (text "tun0") 16) off down))
    × (bit 1 on ≡ 1)
    × (bit 64 on ≡ 1)
    × (on / 2 % 32 ≡ 0x1002 / 2 % 32)
    × (on / 128 ≡ 0x1002 / 128)
    × (bit 1 off ≡ 0)
    × (off / 2 ≡ 0x1002 / 2)
enabled_flags_example = enabled_flags one_interface tun0 0x1002 down down (omega arith) refl

-- A system that makes an interface and then refuses to configure it. The state is the descriptors.
abbrev pub refusing_host : Host (List ℤ)
refusing_host = record {
  posix = record {
    read = λ fd n k. (ok [], k);
    write = λ fd buf k. (ok (length buf), k);
    close = remove;
  };
  socket = λ k. (pos 4, pos 4 ∷ k);
  last_os_error = λ k. io_error other "error";
  to_string_lossy = λ s. s;
  configure = λ dev k. (inl invalid_address, k);
}

pub refusing_host-Holds : Holds refusing_host (λ k. k)
refusing_host-Holds = record { socket = λ k. refl; close = λ fd k. refl; configure = λ dev k. refl }

abbrev refusing : Creation (List ℤ)
refusing = record {
  host = refusing_host;
  open_tun = λ k. (pos 3, pos 3 ∷ k);
  tunsetiff = λ fd name flags k. (inr name, k);
}

refusing-Holds : HoldsTun refusing (λ k. k)
refusing-Holds = record {
  host = refusing_host-Holds;
  open_tun = λ k. refl;
  tunsetiff = λ fd name flags k. refl;
}

abbrev tun0_config : Configuration
tun0_config = interface_name (text "tun0") default

new-Keeps_example :
    Keeps refusing_host (λ k. k) (pos 0 ∷ []) (new refusing tun0_config (pos 0 ∷ []))
new-Keeps_example = new-Keeps refusing (λ k. k) tun0_config (pos 0 ∷ []) refusing-Holds
