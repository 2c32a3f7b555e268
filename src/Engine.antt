-- ===== src/Engine.antt =====
-- engine/mod.rs: the engine, which accepts connections, and what it knows of each.
pub mod Meta
pub mod Serve
pub mod Server
pub mod Run
pub mod Respond
use tache_rs.Prelude.{ℕ, Bool, true, false, not, String, Option, List, [], ◌∷◌, ◌⊎◌, inl, inr}
use tache_rs.Std.Exec.{Outcome, err}
use tache_rs.Std.Net.{SocketAddr}
use tache_rs.Config.Types.{Config}

-- The engine's own error, and the errors of others that it is boxed with, by their texts.
pub record Error : Type 0 where
  pub v : String

-- `Error::change_message`
abbrev pub change_message : Error → String → Error
change_message e new_message = record e { v = new_message }

pub record ConnectionMeta : Type 0 where
  pub udp : Bool
  pub host : List ℕ
  pub src_addr : Option SocketAddr
  pub dst_addr : Option SocketAddr

abbrev pub is_empty : List ℕ → Bool
is_empty [] = true
is_empty (x ∷ xs) = false

-- `ConnectionMeta::is_host`
abbrev pub is_host : ConnectionMeta → Bool
is_host meta = not (is_empty meta.host)

-- The rules of a mode, by its name. Rules and outbounds have no code yet.
pub record Engine (Outbound Rule : Type 0) : Type 0 where
  pub outbounds : List Outbound
  pub modes : List (List ℕ × List Rule)

module _ {Rule : Type 0} where
  abbrev pub keys : List (List ℕ × List Rule) → List (List ℕ)
  keys [] = []
  keys ((key, mode) ∷ modes) = key ∷ keys modes

module _ {Outbound Rule : Type 0} where
  -- `Engine::new`
  abbrev pub new : Engine Outbound Rule
  new = record { outbounds = []; modes = [] }

  -- `Engine::get_modes`
  abbrev pub get_modes : Engine Outbound Rule → List (List ℕ)
  get_modes e = keys e.modes

  -- `Engine::lookup`
  abbrev pub lookup : Engine Outbound Rule → Unit {0}
  lookup e = tt

-- `Engine::update_config`
abbrev pub update_config : Config → String ⊎ Unit {0}
update_config config = inl "not implement"
