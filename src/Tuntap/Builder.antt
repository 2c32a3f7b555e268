-- ===== src/Tuntap/Builder.antt =====
-- configuration.rs and the Configuration of platform/linux/mod.rs: the builder of a configuration. An address is
-- the result of the caller's `into_address`, whose error is a panic.
use tache_rs.Prelude.{ℕ, Bool, true, false, Option, none, some, List}
use tache_rs.Std.Exec.{Exec, ok, panic}
use tache_rs.Std.Int.{ℤ}
use tache_rs.Std.Net.{Ipv4Addr}

pub record Platform : Type 0 where
  pub packet_information : Bool

pub record Configuration : Type 0 where
  pub name : Option (List ℕ)
  pub platform : Platform
  pub address : Option Ipv4Addr
  pub destination : Option Ipv4Addr
  pub broadcast : Option Ipv4Addr
  pub netmask : Option Ipv4Addr
  pub mtu : Option ℤ
  pub enabled : Option Bool

-- `Default`
abbrev pub default : Configuration
default = record {
  name = none;
  platform = record { packet_information = false };
  address = none;
  destination = none;
  broadcast = none;
  netmask = none;
  mtu = none;
  enabled = none;
}

-- `Configuration::platform` with a closure that calls `packet_information`.
abbrev pub packet_information : Bool → Platform → Platform
packet_information value p = record p { packet_information = value }

abbrev pub set_platform : (Platform → Platform) → Configuration → Configuration
set_platform f c = record c { platform = f c.platform }

abbrev pub interface_name : List ℕ → Configuration → Configuration
interface_name name c = record c { name = some name }

module _ {E : Type 0} where
  abbrev pub set_address : Option Ipv4Addr → Exec Configuration E Unit
  set_address none = panic
  set_address (some value) = λ c. (ok tt, record c { address = some value })

  abbrev pub set_destination : Option Ipv4Addr → Exec Configuration E Unit
  set_destination none = panic
  set_destination (some value) = λ c. (ok tt, record c { destination = some value })

  abbrev pub set_broadcast : Option Ipv4Addr → Exec Configuration E Unit
  set_broadcast none = panic
  set_broadcast (some value) = λ c. (ok tt, record c { broadcast = some value })

  abbrev pub set_netmask : Option Ipv4Addr → Exec Configuration E Unit
  set_netmask none = panic
  set_netmask (some value) = λ c. (ok tt, record c { netmask = some value })

abbrev pub set_mtu : ℤ → Configuration → Configuration
set_mtu value c = record c { mtu = some value }

abbrev pub up : Configuration → Configuration
up c = record c { enabled = some true }

abbrev pub down : Configuration → Configuration
down c = record c { enabled = some false }
