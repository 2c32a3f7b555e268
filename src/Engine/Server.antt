-- ===== src/Engine/Server.antt =====
-- engine/mod.rs: `SingleRunHttp`, `SingleRunSocks` and `SingleRunRedir`, whose loop accepts
-- connections and spawns a task for each, as the steps that its tasks take in any order.
pub mod Safety
pub mod Stopped
pub mod Drain
pub mod Order
use tache_rs.Prelude.{
  ◌≡◌, ℕ, Bool, true, false, Option, none, some, List, [], ◌∷◌, ◌++◌, ◌⊎◌, inl, inr,
}
use tache_rs.Std.Io.{IoError}
use tache_rs.Std.Net.{SocketAddr}
use tache_rs.Std.Text.{text}
use tache_rs.Http.Decode.{Request}
use tache_rs.Engine.Serve.{Environment, Connection, Task, running, finished, give_up, serve}

pub record Server : Type 0 where
  -- The loop of `incoming.next()` still runs.
  pub accepting : Bool
  pub tasks : List Task
  pub printed : List (List ℕ)
  pub piped : List Request

abbrev pub listening_on : Environment → SocketAddr → List ℕ
listening_on env listen_address = text "Listening on: " ++ env.show_addr listen_address

-- Bound to its address, which is printed.
abbrev pub listening : Environment → SocketAddr → Server
listening env listen_address = record {
  accepting = true;
  tasks = [];
  printed = listening_on env listen_address ∷ [];
  piped = [];
}

-- What `incoming.next()` gives: a connection, with the peer's address as the system gives it, for
-- which a task is spawned; or an error of `accept` or the end of the listener, which end the loop.
abbrev pub next_incoming : Option (IoError ⊎ (IoError ⊎ SocketAddr)) → Server → Server
next_incoming (some (inr peer)) s = record s {
  tasks = s.tasks ++ running (record { peer = peer; buffer = [] }) ∷ [];
}
next_incoming (some (inl e)) s = record s { accepting = false }
next_incoming none s = record s { accepting = false }

-- A round of one task among the others, with what it printed and piped.
abbrev pub after_round : Environment → Server → List Task → Connection → List Task → Server
after_round env s before conn after =
    let r = serve env conn in
    record s {
      tasks = before ++ r.task ∷ after;
      printed = s.printed ++ r.printed;
      piped = s.piped ++ r.piped;
    }

module _ (env : Environment) where
  pub data Step : Server → Server → Type 0 where
    -- A turn of the loop, while it runs.
    accept :
        (s : Server) (incoming : Option (IoError ⊎ (IoError ⊎ SocketAddr)))
        → s.accepting ≡ true
        → Step s (next_incoming incoming s)
    -- Bytes come in for a connection.
    arrive :
        (s : Server) (before : List Task) (conn : Connection) (after : List Task) (bytes : List ℕ)
        → s.tasks ≡ before ++ running conn ∷ after
        → Step s (record s {
          tasks = before ++ running (record conn { buffer = conn.buffer ++ bytes }) ∷ after;
        })
    -- A round of the loop of a task.
    round :
        (s : Server) (before : List Task) (conn : Connection) (after : List Task)
        → s.tasks ≡ before ++ running conn ∷ after
        → Step s (after_round env s before conn after)
    -- The end of the stream, or an error of it, which is printed.
    close :
        (s : Server) (before : List Task) (conn : Connection) (after : List Task)
        → s.tasks ≡ before ++ running conn ∷ after
        → Step s (record s { tasks = before ++ finished ∷ after })
    break_off :
        (s : Server) (before : List Task) (conn : Connection) (after : List Task) (e : List ℕ)
        → s.tasks ≡ before ++ running conn ∷ after
        → Step s (record s {
          tasks = before ++ finished ∷ after;
          printed = s.printed ++ (give_up e).printed;
        })

  pub data Steps : Server → Server → Type 0 where
    done : (s : Server) → Steps s s
    step : (s t u : Server) → Step s t → Steps t u → Steps s u

  -- TaskRounds of the tasks alone, one after the other.
  pub data TaskRounds : Server → Server → Type 0 where
    settled : (s : Server) → TaskRounds s s
    next_round :
        (s : Server) (before : List Task) (conn : Connection) (after : List Task) (t : Server)
        → s.tasks ≡ before ++ running conn ∷ after
        → TaskRounds (after_round env s before conn after) t
        → TaskRounds s t

-- From the result of `TcpListener::bind`: its error is the result, and else the server takes its steps.
pub data Runs (env : Environment) (listen_address : SocketAddr)
    : IoError ⊎ Unit {0} → IoError ⊎ Server → Type 0 where
  refused : (e : IoError) → Runs env listen_address (inl e) (inl e)
  serving :
      (t : Server)
      → Steps env (listening env listen_address) t
      → Runs env listen_address (inr tt) (inr t)

-- What each of the three may come to; their texts are the same.
abbrev pub SingleRunHttp :
    Environment → (SocketAddr → IoError ⊎ Unit {0}) → SocketAddr → IoError ⊎ Server → Type 0
SingleRunHttp env bind listen_address = Runs env listen_address (bind listen_address)

abbrev pub SingleRunSocks :
    Environment → (SocketAddr → IoError ⊎ Unit {0}) → SocketAddr → IoError ⊎ Server → Type 0
SingleRunSocks env bind listen_address = Runs env listen_address (bind listen_address)

abbrev pub SingleRunRedir :
    Environment → (SocketAddr → IoError ⊎ Unit {0}) → SocketAddr → IoError ⊎ Server → Type 0
SingleRunRedir env bind listen_address = Runs env listen_address (bind listen_address)
