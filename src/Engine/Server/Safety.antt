-- ===== src/Engine/Server/Safety.antt =====
-- engine/mod.rs: what holds of the server whatever its connections send, in any order of the steps.
use tache_rs.Prelude.{
  ℕ, ◌+◌, ◌≤◌, ◌≡◌, refl, sym, ap, ◌∙◌, Option, none, some, List, [], ◌∷◌, ◌++◌, append-nil, length,
  length-append, ◌⊎◌, inl, inr, arith,
}
use tache_rs.Std.Exec.{Outcome, ok, err, panicked}
use tache_rs.Std.Io.{IoError}
use tache_rs.Std.Net.{SocketAddr}
use tache_rs.Std.Text.{text}
use tache_rs.Http.Decode.{Request, DecodeError, decode}
use tache_rs.Engine.{Error, ConnectionMeta}
use tache_rs.Engine.Meta.{build_connection_meta}
use tache_rs.Engine.Serve.{
  Environment, Connection, Task, running, finished, Round, give_up, with_meta, with_request, serve,
}
use tache_rs.Engine.Server.{
  Server, listening_on, listening, next_incoming, Runs, refused, serving, SingleRunHttp,
  SingleRunSocks, SingleRunRedir, after_round, Step, accept, arrive, round, close, break_off, Steps,
  done, step,
}

abbrev pub finished_tasks : List Task → ℕ
finished_tasks [] = 0
finished_tasks (running conn ∷ tasks) = finished_tasks tasks
finished_tasks (finished ∷ tasks) = 1 + finished_tasks tasks

-- A round either waits for bytes, and does nothing else, or ends the task, with one line at most.
abbrev pub IsRound : Round → Type 0
IsRound r =
    (r.piped ≡ [])
    × (((conn : Connection) × (r.task ≡ running conn) × (r.printed ≡ []))
        ⊎ ((r.task ≡ finished) × (length r.printed ≤ 1)))

with_meta-IsRound :
    (conn : Connection) (request : Request) (m : Error ⊎ ConnectionMeta)
    → IsRound (with_meta conn request m)
with_meta-IsRound conn request (inl e) = (refl, inr (refl, omega arith))
with_meta-IsRound conn request (inr meta) = (refl, inr (refl, omega arith))

with_request-IsRound :
    (env : Environment) (conn : Connection) (o : Outcome DecodeError (Option Request))
    (rest : List ℕ)
    → IsRound (with_request env conn (o, rest))
with_request-IsRound env conn (ok none) rest =
    (refl, inl (record conn { buffer = rest }, refl, refl))
with_request-IsRound env conn (ok (some request)) rest =
    with_meta-IsRound (record conn { buffer = rest }) request
      (build_connection_meta env.resolver conn.peer (env.host request))
with_request-IsRound env conn (err e) rest = (refl, inr (refl, omega arith))
with_request-IsRound env conn panicked rest = (refl, inr (refl, omega arith))

serve-IsRound : (env : Environment) (conn : Connection) → IsRound (serve env conn)
unfolding serve
serve-IsRound env conn =
    let d = decode env.http conn.buffer in with_request-IsRound env conn d.0 d.1

finished_append :
    (xs ys : List Task) → finished_tasks (xs ++ ys) ≡ finished_tasks xs + finished_tasks ys
finished_append [] ys = omega arith
finished_append (running conn ∷ xs) ys = finished_append xs ys
finished_append (finished ∷ xs) ys = omega (arith, finished_append xs ys)

-- No request was piped. The line `first` was printed, and behind it at most as many lines as there
-- are finished tasks.
pub record IsServer (first : List ℕ) (s : Server) : Type 0 where
  pub none_piped : s.piped ≡ []
  pub others : List (List ℕ)
  pub printed_lem : s.printed ≡ first ∷ others
  pub lines : length others ≤ finished_tasks s.tasks

module _ (env : Environment) where
  -- Where the task in the middle goes on, the number of those that finished is the same.
  pub same_finished :
      (s : Server) (before : List Task) (conn conn' : Connection) (after : List Task)
      → s.tasks ≡ before ++ running conn ∷ after
      → finished_tasks (before ++ running conn' ∷ after) ≡ finished_tasks s.tasks
  same_finished s before conn conn' after e =
      finished_append before (running conn' ∷ after)
      ∙ sym (finished_append before (running conn ∷ after))
      ∙ ap finished_tasks (sym e)

  pub more_finished :
      (s : Server) (before : List Task) (conn : Connection) (after : List Task)
      → s.tasks ≡ before ++ running conn ∷ after
      → finished_tasks (before ++ finished ∷ after) ≡ finished_tasks s.tasks + 1
  more_finished s before conn after e =
      let old : finished_tasks s.tasks ≡ finished_tasks before + finished_tasks after =
        ap finished_tasks e ∙ finished_append before (running conn ∷ after) in
      omega (arith, finished_append before (finished ∷ after), old)

module _ (env : Environment) (first : List ℕ) where
  -- Further lines, of tasks that have finished.
  printed_more :
      (s : Server) (h : IsServer first s) (more : List (List ℕ))
      → s.printed ++ more ≡ first ∷ (h.others ++ more)
  printed_more s h more = ap (λ (l : List (List ℕ)). l ++ more) h.printed_lem

  after_round-IsServer :
      (s : Server) (before : List Task) (conn : Connection) (after : List Task)
      → s.tasks ≡ before ++ running conn ∷ after
      → IsServer first s
      → IsServer first (after_round env s before conn after)
  after_round-IsServer s before conn after e h =
      let (no_pipe, case) = serve-IsRound env conn in
      let printed = (serve env conn).printed in
      record {
        none_piped = rw (h.none_piped, no_pipe) refl;
        others = h.others ++ printed;
        printed_lem = printed_more s h printed;
        lines = elim case [
          | inl (conn', task, silent) ↦
              rw (task, silent, append-nil h.others)
                (omega (arith, h.lines, same_finished env s before conn conn' after e))
          | inr (task, one) ↦ rw task (
              omega (
                arith,
                one,
                h.lines,
                more_finished env s before conn after e,
                length-append h.others printed,
              ))
        ];
      }

  incoming-IsServer :
      (s : Server) (incoming : Option (IoError ⊎ (IoError ⊎ SocketAddr)))
      → IsServer first s
      → IsServer first (next_incoming incoming s)
  incoming-IsServer s (some (inr peer)) h = record {
    none_piped = h.none_piped;
    others = h.others;
    printed_lem = h.printed_lem;
    lines = omega (
      arith,
      h.lines,
      finished_append s.tasks (running (record { peer = peer; buffer = [] }) ∷ []),
    );
  }
  incoming-IsServer s (some (inl e)) h = record {
    none_piped = h.none_piped;
    others = h.others;
    printed_lem = h.printed_lem;
    lines = h.lines;
  }
  incoming-IsServer s none h = record {
    none_piped = h.none_piped;
    others = h.others;
    printed_lem = h.printed_lem;
    lines = h.lines;
  }

  step-IsServer : (s t : Server) → Step env s t → IsServer first s → IsServer first t
  step-IsServer _ _ (accept s incoming on) h = incoming-IsServer s incoming h
  step-IsServer _ _ (arrive s before conn after bytes e) h = record {
    none_piped = h.none_piped;
    others = h.others;
    printed_lem = h.printed_lem;
    lines = omega (
      arith,
      h.lines,
      same_finished env s before conn (record conn { buffer = conn.buffer ++ bytes }) after e,
    );
  }
  step-IsServer _ _ (round s before conn after e) h = after_round-IsServer s before conn after e h
  step-IsServer _ _ (close s before conn after e) h = record {
    none_piped = h.none_piped;
    others = h.others;
    printed_lem = h.printed_lem;
    lines = omega (arith, h.lines, more_finished env s before conn after e);
  }
  step-IsServer _ _ (break_off s before conn after text e) h = record {
    none_piped = h.none_piped;
    others = h.others ++ (give_up text).printed;
    printed_lem = printed_more s h (give_up text).printed;
    lines = omega (
      arith,
      h.lines,
      more_finished env s before conn after e,
      length-append h.others (give_up text).printed,
    );
  }

  Steps-IsServer : (s t : Server) → Steps env s t → IsServer first s → IsServer first t
  Steps-IsServer _ _ (done s) h = h
  Steps-IsServer _ _ (step s u t one more) h = Steps-IsServer u t more (step-IsServer s u one h)

abbrev IsServer? : List ℕ → IoError ⊎ Server → Type 0
IsServer? first (inl e) = Unit
IsServer? first (inr t) = IsServer first t

Runs-IsServer :
    (env : Environment) (addr : SocketAddr) (bound : IoError ⊎ Unit {0}) (r : IoError ⊎ Server)
    → Runs env addr bound r
    → IsServer? (listening_on env addr) r
Runs-IsServer env addr _ _ (refused e) = tt
Runs-IsServer env addr _ _ (serving t steps) =
    Steps-IsServer env (listening_on env addr) (listening env addr) t steps
      (record { none_piped = refl; others = []; printed_lem = refl; lines = omega arith })

-- Whatever connections come in, bytes arrive and in whatever order the tasks take their rounds,
-- a server of any of the three kinds never pipes a request; it has printed the address that it
-- listens on, and after that at most as many lines as it has finished connections.
pub SingleRunHttp-IsServer :
    (env : Environment) (bind : SocketAddr → IoError ⊎ Unit {0}) (addr : SocketAddr) (t : Server)
    → SingleRunHttp env bind addr (inr t)
      ⊎ SingleRunSocks env bind addr (inr t)
      ⊎ SingleRunRedir env bind addr (inr t)
    → IsServer (text "Listening on: " ++ env.show_addr addr) t
SingleRunHttp-IsServer env bind addr t (inl runs) = Runs-IsServer env addr (bind addr) (inr t) runs
SingleRunHttp-IsServer env bind addr t (inr (inl runs)) =
    Runs-IsServer env addr (bind addr) (inr t) runs
SingleRunHttp-IsServer env bind addr t (inr (inr runs)) =
    Runs-IsServer env addr (bind addr) (inr t) runs
