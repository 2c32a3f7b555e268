-- ===== src/Socks5/Command.antt =====
-- protocol/socks/socks5.rs: the command of a request.
use tache_rs.Prelude.{ℕ, Option, none, some, ◌==◌, ◌≡◌, refl, arith, if◌then◌else◌}
use tache_rs.Socks5.Consts.{socks5_cmd_tcp_connect, socks5_cmd_tcp_bind, socks5_cmd_udp_associate}

pub data Command : Type 0 where
  tcp_connect tcp_bind udp_associate : Command

unfoldable pub as_u8 : Command → ℕ
as_u8 tcp_connect = socks5_cmd_tcp_connect
as_u8 tcp_bind = socks5_cmd_tcp_bind
as_u8 udp_associate = socks5_cmd_udp_associate

unfoldable pub from_u8 : ℕ → Option Command
from_u8 code =
    if code == socks5_cmd_tcp_connect
    then some tcp_connect
    else if code == socks5_cmd_tcp_bind
    then some tcp_bind
    else if code == socks5_cmd_udp_associate
    then some udp_associate
    else none

-- The codes stand for the commands and for nothing else.
pub from_u8-as_u8 : (c : Command) → from_u8 (as_u8 c) ≡ some c
unfolding from_u8 as_u8
from_u8-as_u8 tcp_connect = refl
from_u8-as_u8 tcp_bind = refl
from_u8-as_u8 udp_associate = refl

pub as_u8-from_u8 : (n : ℕ) (c : Command) → from_u8 n ≡ some c → as_u8 c ≡ n
unfolding from_u8 as_u8
as_u8-from_u8 n c h = ground arith

-- Every command is read back from its code, and a code that is read as a command is the code of that
-- command and of no other.
pub command_codes :
    (n : ℕ) (c : Command) → from_u8 n ≡ some c → (as_u8 c ≡ n) × (from_u8 (as_u8 c) ≡ some c)
command_codes n c h = (as_u8-from_u8 n c h, from_u8-as_u8 c)
