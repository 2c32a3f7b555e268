-- ===== src/Utils/Name.antt =====
-- utils.rs: a domain name and a port as text.
pub mod RoundTrip
use tache_rs.Prelude.{ℕ, ◌∷◌, ◌++◌, List, Option, none, some}
use tache_rs.Std.Exec.{Outcome, ok, err}
use tache_rs.Std.Text.{text, decimal}
use tache_rs.Std.Parse.{split_once, parse_u16}
use tache_rs.Utils.{DomainName}

pub data DomainNameError : Type 0 where
  domain_name_error : DomainNameError

-- `port.parse::<u16>()`
abbrev named : List ℕ → Option ℕ → Outcome DomainNameError DomainName
named dn none = err domain_name_error
named dn (some port) = ok (record { name = dn; port = port })

-- The second piece of `split(':')` ends at the next colon, and nobody asks for the third.
abbrev pieces : List ℕ × Option (List ℕ) → Outcome DomainNameError DomainName
pieces (dn, none) = err domain_name_error
pieces (dn, some rest) = named dn (parse_u16 (split_once b':' rest).0)

unfoldable pub from_str : List ℕ → Outcome DomainNameError DomainName
from_str s = pieces (split_once b':' s)

unfoldable pub display : DomainName → List ℕ
display d = d.name ++ b':' ∷ decimal d.port

-- `Serialize` and `Deserialize` in a readable format, and in another.
unfoldable pub serialize_text : DomainName → List ℕ
unfolding display
serialize_text d = display d

unfoldable pub visit_str : List ℕ → Outcome DomainNameError DomainName
visit_str s = from_str s

unfoldable pub serialize_pair : DomainName → List ℕ × ℕ
serialize_pair d = (d.name, d.port)

unfoldable pub deserialize_pair : List ℕ × ℕ → DomainName
deserialize_pair (ip, port) = record { name = ip; port = port }
