-- ===== src/Utils.antt =====
-- utils.rs: the address that the clients of the library use.
pub mod Name
pub mod Target
use tache_rs.Prelude.{ℕ, List}
use tache_rs.Std.Net.{SocketAddr}

-- The name is a `String`: bytes in UTF-8.
pub record DomainName : Type 0 where
  pub name : List ℕ
  pub port : ℕ

pub data Address : Type 0 where
  socket_addr : SocketAddr → Address
  domain_name : DomainName → Address
