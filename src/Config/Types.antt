-- ===== src/Config/Types.antt =====
-- config.rs: the configuration.
use tache_rs.Prelude.{ℕ, Bool, List, [], ◌++◌, Option, none, some, String}
use tache_rs.Std.Int.{ℤ}
use tache_rs.Std.Text.{text}
use tache_rs.Utils.{Address}
use tache_rs.Config.Words.Mode
use tache_rs.Config.Words.Mode.{Mode}
use tache_rs.Config.Words.LogLevel
use tache_rs.Config.Words.LogLevel.{LogLevel}
use tache_rs.Config.Words.DnsMode.{DnsMode}

pub record ApiConfig : Type 0 where
  pub listen : Address
  pub secret : Option (List ℕ)
  pub external_ui : Option (List ℕ)

pub record DnsConfig : Type 0 where
  pub ipv6 : Option Bool
  pub listen : Address
  pub mode : DnsMode
  pub servers : List (List ℕ)
  pub fallback : List (List ℕ)

-- The name, the address to listen at, and who may come in.
pub data InboundConfig : Type 0 where
  http_inbound : List ℕ → Address → Option (List (List ℕ)) → InboundConfig
  socks5_inbound : List ℕ → Address → Option (List (List ℕ)) → InboundConfig
  redir_inbound : List ℕ → Address → Option (List (List ℕ)) → InboundConfig
  tun_inbound : List ℕ → InboundConfig

pub record Shadowsocks : Type 0 where
  pub name : List ℕ
  pub address : Address
  pub cipher : List ℕ
  pub password : List ℕ
  pub udp : Bool

pub record Vmess : Type 0 where
  pub name : List ℕ
  pub address : Address
  pub uuid : List ℕ
  pub alter_id : ℤ
  pub cipher : List ℕ
  pub tls : Option Bool

-- A SOCKS 5 or an HTTP proxy.
pub record Upstream : Type 0 where
  pub name : List ℕ
  pub address : Address
  pub username : Option (List ℕ)
  pub password : Option (List ℕ)
  pub tls : Option Bool
  pub skip_cert_verify : Option Bool

pub data ProxyConfig : Type 0 where
  shadowsocks_proxy : Shadowsocks → ProxyConfig
  vmess_proxy : Vmess → ProxyConfig
  socks5_proxy : Upstream → ProxyConfig
  http_proxy : Upstream → ProxyConfig

pub record ProxyGroupConfig : Type 0 where
  pub name : List ℕ
  pub kind : List ℕ
  pub proxies : List (List ℕ)

pub record RuleConfig : Type 0 where
  pub kind : List ℕ
  pub source : List (List ℕ)
  pub params : Option (List (List ℕ))
  pub target : List ℕ
  pub timeout : Option ℕ

pub record Config : Type 0 where
  pub mode : Mode
  pub log_level : LogLevel
  pub api : Option ApiConfig
  pub dns : Option DnsConfig
  pub no_delay : Option Bool
  pub inbounds : List InboundConfig
  pub proxies : List ProxyConfig
  pub proxy_groups : List ProxyGroupConfig
  pub rules : List RuleConfig

-- `Config::new`
abbrev pub empty : Config
empty = record {
  mode = Mode.default;
  log_level = LogLevel.default;
  api = none;
  dns = none;
  no_delay = none;
  inbounds = [];
  proxies = [];
  proxy_groups = [];
  rules = [];
}

pub data ErrorKind : Type 0 where
  missing_field malformed invalid json_parsing_error io_failure : ErrorKind

pub record Error : Type 0 where
  pub kind : ErrorKind
  pub desc : String
  pub detail : Option (List ℕ)

-- `Debug`
unfoldable pub describe : Error → List ℕ
describe e = described e.detail
  where
    described : Option (List ℕ) → List ℕ
    described none = text e.desc
    described (some det) = text e.desc ++ text " " ++ det
