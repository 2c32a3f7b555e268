-- ===== src/Engine/Serve.antt =====
-- engine/mod.rs: one round of the loop that serves a connection, in the task that is spawned for it.
use tache_rs.Prelude.{ℕ, Option, none, some, List, [], ◌∷◌, ◌++◌, ◌⊎◌, inl, inr}
use tache_rs.Std.Exec.{Outcome, ok, err, panicked}
use tache_rs.Std.Io.{IoError}
use tache_rs.Std.Net.{SocketAddr}
use tache_rs.Std.Text.{text}
use tache_rs.Http.Decode
use tache_rs.Http.Decode.{HttpCrates, Request, DecodeError, decode}
use tache_rs.Engine.{Error, ConnectionMeta}
use tache_rs.Engine.Meta.{Resolver, build_connection_meta}

-- What the loop calls outside of the repository: the crates of the codec, the resolver, the host of a
-- request's URI, and `Display` of an address.
pub record Environment : Type 0 where
  pub http : HttpCrates
  pub resolver : Resolver
  pub host : Request → Option (List ℕ)
  pub show_addr : SocketAddr → List ℕ

-- The peer's address as the system gives it, and the bytes that were read and not taken yet.
pub record Connection : Type 0 where
  pub peer : IoError ⊎ SocketAddr
  pub buffer : List ℕ

-- `return`, the end of the loop and a panic all finish the task.
pub data Task : Type 0 where
  running : Connection → Task
  finished : Task

-- After one round: the task, the lines that it printed, and the requests that it piped.
pub record Round : Type 0 where
  pub task : Task
  pub printed : List (List ℕ)
  pub piped : List Request

-- `Display` of the engine's error, and the line that is printed.
abbrev pub display : Error → List ℕ
display e = text "InboundError: " ++ text e.v

abbrev pub give_up : List ℕ → Round
give_up e = record {
  task = finished;
  printed = (text "failed to process request " ++ e) ∷ [];
  piped = [];
}

abbrev pub run_rule : ConnectionMeta → Error ⊎ Unit {0}
run_rule meta = inl (record { v = "not implement" })

abbrev pub pipe : Request → Error ⊎ Unit {0}
pipe request = inr tt

abbrev pub go_on : Connection → Request → Error ⊎ Unit {0} → Round
go_on conn request (inr _) = record { task = running conn; printed = []; piped = request ∷ [] }
go_on conn request (inl e) = record (give_up (display e)) { piped = request ∷ [] }

abbrev pub with_outbound : Connection → Request → Error ⊎ Unit {0} → Round
with_outbound conn request (inr outbound) = go_on conn request (pipe request)
with_outbound conn request (inl e) = give_up (display e)

abbrev pub with_meta : Connection → Request → Error ⊎ ConnectionMeta → Round
with_meta conn request (inr meta) = with_outbound conn request (run_rule meta)
with_meta conn request (inl e) = give_up (display e)

-- `transport.next()` and what is done with it; without a whole request the task waits for bytes.
abbrev pub with_request :
    Environment → Connection → Outcome DecodeError (Option Request) × List ℕ → Round
with_request env conn (ok none, rest) = record {
  task = running (record conn { buffer = rest });
  printed = [];
  piped = [];
}
with_request env conn (ok (some request), rest) =
    with_meta (record conn { buffer = rest }) request
      (build_connection_meta env.resolver conn.peer (env.host request))
with_request env conn (err e, rest) = give_up (Decode.message e)
with_request env conn (panicked, rest) = record { task = finished; printed = []; piped = [] }

unfoldable pub serve : Environment → Connection → Round
serve env conn = with_request env conn (decode env.http conn.buffer)
