-- ===== src/Socks5/Reply.antt =====
-- protocol/socks/socks5.rs: the reply codes of a server.
use tache_rs.Prelude.{ℕ, List, ◌++◌, ◌==◌, ◌≡◌, refl, arith, ◌<◌, if◌then◌else◌}
use tache_rs.Std.Text.{text, decimal}
use tache_rs.Socks5.Consts.{
  socks5_reply_succeeded, socks5_reply_general_failure, socks5_reply_connection_not_allowed,
  socks5_reply_network_unreachable, socks5_reply_host_unreachable, socks5_reply_connection_refused,
  socks5_reply_ttl_expired, socks5_reply_command_not_supported,
  socks5_reply_address_type_not_supported,
}

pub data Reply : Type 0 where
  succeeded : Reply
  general_failure : Reply
  connection_not_allowed : Reply
  network_unreachable : Reply
  host_unreachable : Reply
  connection_refused : Reply
  ttl_expired : Reply
  command_not_supported : Reply
  address_type_not_supported : Reply
  other_reply : ℕ → Reply

unfoldable pub as_u8 : Reply → ℕ
as_u8 succeeded = socks5_reply_succeeded
as_u8 general_failure = socks5_reply_general_failure
as_u8 connection_not_allowed = socks5_reply_connection_not_allowed
as_u8 network_unreachable = socks5_reply_network_unreachable
as_u8 host_unreachable = socks5_reply_host_unreachable
as_u8 connection_refused = socks5_reply_connection_refused
as_u8 ttl_expired = socks5_reply_ttl_expired
as_u8 command_not_supported = socks5_reply_command_not_supported
as_u8 address_type_not_supported = socks5_reply_address_type_not_supported
as_u8 (other_reply c) = c

unfoldable pub from_u8 : ℕ → Reply
from_u8 code =
    if code == socks5_reply_succeeded
    then succeeded
    else if code == socks5_reply_general_failure
    then general_failure
    else if code == socks5_reply_connection_not_allowed
    then connection_not_allowed
    else if code == socks5_reply_network_unreachable
    then network_unreachable
    else if code == socks5_reply_host_unreachable
    then host_unreachable
    else if code == socks5_reply_connection_refused
    then connection_refused
    else if code == socks5_reply_ttl_expired
    then ttl_expired
    else if code == socks5_reply_command_not_supported
    then command_not_supported
    else if code == socks5_reply_address_type_not_supported
    then address_type_not_supported
    else other_reply code

-- `Display`
unfoldable pub display : Reply → List ℕ
display succeeded = text "Succeeded"
display general_failure = text "General failure"
display connection_not_allowed = text "Connection not allowed"
display network_unreachable = text "Network unreachable"
display host_unreachable = text "Host unreachable"
display connection_refused = text "Connection refused"
display ttl_expired = text "TTL expired"
display command_not_supported = text "Command not supported"
display address_type_not_supported = text "Address type not supported"
display (other_reply u) = text "Other reply (" ++ decimal u ++ text ")"

-- Every byte stands for a reply, and is the code of that reply.
pub as_u8-from_u8 : (n : ℕ) → as_u8 (from_u8 n) ≡ n
unfolding from_u8 as_u8
as_u8-from_u8 n = ground arith

-- A reply as the program makes it: an `other_reply` holds none of the codes that have a name.
abbrev pub IsCanonical : Reply → Type 0
IsCanonical (other_reply c) = 8 < c
IsCanonical _ = Unit

pub from_u8-as_u8 : (r : Reply) → IsCanonical r → from_u8 (as_u8 r) ≡ r
unfolding from_u8 as_u8
from_u8-as_u8 (other_reply c) h = ground arith
from_u8-as_u8 _ h = refl

-- Every code gives a reply whose code it is; and a reply is read back from its code, provided
-- it is not one of the nine codes with a name, spelled as another reply.
pub reply_codes :
    (n : ℕ) (r : Reply) → IsCanonical r → (as_u8 (from_u8 n) ≡ n) × (from_u8 (as_u8 r) ≡ r)
reply_codes n r h = (as_u8-from_u8 n, from_u8-as_u8 r h)
