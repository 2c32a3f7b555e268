-- ===== src/Socks5/Consts.antt =====
-- protocol/socks/socks5.rs: the module `consts`.
use tache_rs.Prelude.{ℕ}

abbrev pub socks5_version : ℕ
socks5_version = 0x05

abbrev pub socks5_auth_method_none : ℕ
socks5_auth_method_none = 0x00

abbrev pub socks5_cmd_tcp_connect : ℕ
socks5_cmd_tcp_connect = 0x01

abbrev pub socks5_cmd_tcp_bind : ℕ
socks5_cmd_tcp_bind = 0x02

abbrev pub socks5_cmd_udp_associate : ℕ
socks5_cmd_udp_associate = 0x03

abbrev pub socks5_addr_type_ipv4 : ℕ
socks5_addr_type_ipv4 = 0x01

abbrev pub socks5_addr_type_domain_name : ℕ
socks5_addr_type_domain_name = 0x03

abbrev pub socks5_addr_type_ipv6 : ℕ
socks5_addr_type_ipv6 = 0x04

abbrev pub socks5_reply_succeeded : ℕ
socks5_reply_succeeded = 0x00

abbrev pub socks5_reply_general_failure : ℕ
socks5_reply_general_failure = 0x01

abbrev pub socks5_reply_connection_not_allowed : ℕ
socks5_reply_connection_not_allowed = 0x02

abbrev pub socks5_reply_network_unreachable : ℕ
socks5_reply_network_unreachable = 0x03

abbrev pub socks5_reply_host_unreachable : ℕ
socks5_reply_host_unreachable = 0x04

abbrev pub socks5_reply_connection_refused : ℕ
socks5_reply_connection_refused = 0x05

abbrev pub socks5_reply_ttl_expired : ℕ
socks5_reply_ttl_expired = 0x06

abbrev pub socks5_reply_command_not_supported : ℕ
socks5_reply_command_not_supported = 0x07

abbrev pub socks5_reply_address_type_not_supported : ℕ
socks5_reply_address_type_not_supported = 0x08
