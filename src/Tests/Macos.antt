-- ===== src/Tests/Macos.antt =====
-- The crate tuntap on macOS.
use tache_rs.Prelude.{◌≡◌, refl, arith, some, inr, List, [], ◌∷◌, ap, sym, ◌⊎◌}
use tache_rs.Std.Io.{IoError}
use tache_rs.Std.Exec.{ok, err}
use tache_rs.Std.Int.{ℤ, pos, negsuc}
use tache_rs.Std.Text.{text}
use tache_rs.Std.Array.{overwrite}
use tache_rs.Std.Parse.{parse_i32}
use tache_rs.Samples.{loopback}
use tache_rs.Tuntap.Error.{name_too_long, invalid_name, invalid_number}
use tache_rs.Tuntap.SockAddr.{Sockaddr}
use tache_rs.Tuntap.Device.{put_addr, request, copy_name}
use tache_rs.Tuntap.Builder.{Configuration, interface_name, default}
use tache_rs.Tuntap.Opening.Held.{Keeps}
use tache_rs.Tuntap.Macos.{
  Ioctls, address, set_address, destination, set_destination, broadcast, set_broadcast, netmask,
  set_netmask, mtu, set_mtu,
}
use tache_rs.Tuntap.Macos.Create.{Creation, unit_of, new}
use tache_rs.Tuntap.Macos.Held.{HoldsUtun, utun-Keeps}
use tache_rs.Tuntap.Macos.Settings.{KeepsSettings, utun_read_back}
use tache_rs.Tests.Interfaces.{Interface, down, tun0, stored, refusing_host, refusing_host-Holds}

abbrev one_utun : Ioctls Interface
one_utun = record {
  siocgifflags = λ fd name k. (inr k.flags, k);
  siocsifflags = λ fd name v k. (inr tt, record k { flags = v });
  siocgifaddr = λ fd name k. (inr k.addr, k);
  siocsifaddr = λ fd name v k. (inr tt, record k { addr = v });
  siocgifdstaddr = λ fd name k. (inr k.dst, k);
  siocsifdstaddr = λ fd name v k. (inr tt, record k { dst = v });
  siocgifbrdaddr = λ fd name k. (inr k.brd, k);
  siocsifbrdaddr = λ fd name v k. (inr tt, record k { brd = v });
  siocgifnetmask = λ fd name k. (inr (record k.mask { sa_family = 0 }), k);
  siocsifnetmask = λ fd name v k. (inr tt, record k { mask = v });
  siocgifmtu = λ fd name k. (inr k.size, k);
  siocsifmtu = λ fd name v k. (inr tt, record k { size = v });
  siocaifaddr = λ fd name a b m k. (inr tt, record k { addr = a; brd = b; mask = m });
}

one_utun-KeepsSettings : KeepsSettings one_utun
one_utun-KeepsSettings = record {
  addr = λ fd name value k k' h.
      ap (λ (x : Sockaddr). (inr x, k'))
        (sym (ap (λ (p : (IoError ⊎ Unit {0}) × Interface). p.1.addr) h));
  dstaddr = λ fd name value k k' h.
      ap (λ (x : Sockaddr). (inr x, k'))
        (sym (ap (λ (p : (IoError ⊎ Unit {0}) × Interface). p.1.dst) h));
  brdaddr = λ fd name value k k' h.
      ap (λ (x : Sockaddr). (inr x, k'))
        (sym (ap (λ (p : (IoError ⊎ Unit {0}) × Interface). p.1.brd) h));
  netmask = λ fd name value k k' h. (
    0,
    ap (λ (x : Sockaddr). (inr (record x { sa_family = 0 }), k'))
        (sym (ap (λ (p : (IoError ⊎ Unit {0}) × Interface). p.1.mask) h)),
  );
  mtu = λ fd name value k k' h.
      ap (λ (x : ℤ). (inr x, k')) (sym (ap (λ (p : (IoError ⊎ Unit {0}) × Interface). p.1.size) h));
}

set_address_done : set_address one_utun tun0 loopback down ≡ (ok tt, record down { addr = stored })
unfolding set_address put_addr request copy_name overwrite
set_address_done = refl

set_destination_done :
    set_destination one_utun tun0 loopback down ≡ (ok tt, record down { dst = stored })
unfolding set_destination put_addr request copy_name overwrite
set_destination_done = refl

set_broadcast_done :
    set_broadcast one_utun tun0 loopback down ≡ (ok tt, record down { brd = stored })
unfolding set_broadcast put_addr request copy_name overwrite
set_broadcast_done = refl

set_netmask_done : set_netmask one_utun tun0 loopback down ≡ (ok tt, record down { mask = stored })
unfolding set_netmask put_addr request copy_name overwrite
set_netmask_done = refl

set_mtu_done : set_mtu one_utun tun0 (pos 1400) down ≡ (ok tt, record down { size = pos 1400 })
unfolding set_mtu request copy_name overwrite
set_mtu_done = refl

utun_read_back_example :
    (address one_utun tun0 (record down { addr = stored })
      ≡ (ok loopback, record down { addr = stored }))
    × (destination one_utun tun0 (record down { dst = stored })
        ≡ (ok loopback, record down { dst = stored }))
    × (broadcast one_utun tun0 (record down { brd = stored })
        ≡ (ok loopback, record down { brd = stored }))
    × (netmask one_utun tun0 (record down { mask = stored })
        ≡ (ok loopback, record down { mask = stored }))
    × (mtu one_utun tun0 (record down { size = pos 1400 })
        ≡ (ok (pos 1400), record down { size = pos 1400 }))
utun_read_back_example =
    utun_read_back one_utun tun0 loopback loopback loopback loopback (pos 1400) down
      (record down { addr = stored }) (record down { dst = stored }) (record down { brd = stored })
      (record down { mask = stored }) (record down { size = pos 1400 }) one_utun-KeepsSettings
      (omega arith) (omega arith) (omega arith) (omega arith) (omega arith) set_address_done
      set_destination_done set_broadcast_done set_netmask_done set_mtu_done

-- A system that makes an interface and then refuses to configure it. The state is the descriptors.
abbrev refusing : Creation (List ℤ)
refusing = record {
  host = refusing_host;
  socket_system = λ k. (pos 3, pos 3 ∷ k);
  ctliocginfo = λ fd name k. (inr 7, k);
  connect = λ fd addr k. (inr tt, k);
  getsockopt = λ fd k. (inr (text "utun4"), k);
}

refusing-HoldsUtun : HoldsUtun refusing (λ k. k)
refusing-HoldsUtun = record {
  host = refusing_host-Holds;
  socket_system = λ k. refl;
  ctliocginfo = λ fd name k. refl;
  connect = λ fd addr k. refl;
  getsockopt = λ fd k. refl;
}

abbrev utun4_config : Configuration
utun4_config = interface_name (text "utun4") default

utun-Keeps_example :
    Keeps refusing_host (λ k. k) (pos 0 ∷ []) (new refusing utun4_config (pos 0 ∷ []))
utun-Keeps_example = utun-Keeps refusing (λ k. k) utun4_config (pos 0 ∷ []) refusing-HoldsUtun

unit_names :
    (unit_of (some (text "utun4")) ≡ ok (pos 4))
    × (unit_of (some (text "utun-1")) ≡ ok (negsuc 0))
    × (unit_of (some (text "utun")) ≡ err invalid_number)
    × (unit_of (some (text "tun0")) ≡ err invalid_name)
    × (unit_of (some (text "utun0000000000004")) ≡ err name_too_long)
unfolding unit_of parse_i32
unit_names = (refl, refl, refl, refl, refl)
