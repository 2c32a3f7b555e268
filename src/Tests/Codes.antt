-- ===== src/Tests/Codes.antt =====
-- protocol/socks/socks5.rs: the codes of commands and replies.
use tache_rs.Prelude.{◌≡◌, refl, some}
use tache_rs.Std.Text.{text, decimal}
use tache_rs.Socks5.Command
use tache_rs.Socks5.Command.{tcp_bind, command_codes}
use tache_rs.Socks5.Reply.{other_reply, display}

from_u8_bind : Command.from_u8 2 ≡ some tcp_bind
unfolding Command.from_u8
from_u8_bind = refl

display_other : display (other_reply 200) ≡ text "Other reply (200)"
unfolding display decimal
display_other = refl
