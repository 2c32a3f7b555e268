-- ===== src/Engine/Server/Drain.antt =====
-- engine/mod.rs: connections with something to decode come to their end.
use tache_rs.Prelude.{
  ℕ, ◌≡◌, refl, sym, ap, ◌∙◌, subst, Option, none, some, List, [], ◌∷◌, ◌++◌, append-nil,
  append_assoc, All, ◌⊎◌, inl, inr,
}
use tache_rs.Std.Exec.{Outcome, ok, err, panicked}
use tache_rs.Http.Decode.{Request, DecodeError, decode}
use tache_rs.Engine.{Error, ConnectionMeta}
use tache_rs.Engine.Meta.{build_connection_meta}
use tache_rs.Engine.Serve.{
  Environment, Connection, Task, running, finished, Round, with_meta, with_request, serve,
}
use tache_rs.Engine.Server.{Server, after_round, TaskRounds, settled, next_round}

-- The decoder has an answer other than that it needs more bytes.
abbrev pub IsAnswer : Outcome DecodeError (Option Request) → Type 0
IsAnswer (ok none) = ⊥
IsAnswer _ = Unit

abbrev pub IsReady : Environment → Task → Type 0
IsReady env (running conn) = IsAnswer (decode env.http conn.buffer).0
IsReady env finished = Unit

-- What the tasks print in their last rounds.
abbrev pub last_lines : Environment → List Task → List (List ℕ)
last_lines env [] = []
last_lines env (running conn ∷ tasks) = (serve env conn).printed ++ last_lines env tasks
last_lines env (finished ∷ tasks) = last_lines env tasks

abbrev pub all_finished : List Task → List Task
all_finished [] = []
all_finished (task ∷ tasks) = finished ∷ all_finished tasks

-- A round with an answer ends the task without piping.
abbrev pub IsEnd : Round → Type 0
IsEnd r = (r.task ≡ finished) × (r.piped ≡ [])

with_meta-IsEnd :
    (conn : Connection) (request : Request) (m : Error ⊎ ConnectionMeta)
    → IsEnd (with_meta conn request m)
with_meta-IsEnd conn request (inl e) = (refl, refl)
with_meta-IsEnd conn request (inr meta) = (refl, refl)

with_request-IsEnd :
    (env : Environment) (conn : Connection) (o : Outcome DecodeError (Option Request))
    (rest : List ℕ)
    → IsAnswer o
    → IsEnd (with_request env conn (o, rest))
with_request-IsEnd env conn (ok none) rest h = elim h [ ]
with_request-IsEnd env conn (ok (some request)) rest h =
    with_meta-IsEnd (record conn { buffer = rest }) request
      (build_connection_meta env.resolver conn.peer (env.host request))
with_request-IsEnd env conn (err e) rest h = (refl, refl)
with_request-IsEnd env conn panicked rest h = (refl, refl)

pub serve-IsEnd :
    (env : Environment) (conn : Connection) → IsReady env (running conn) → IsEnd (serve env conn)
unfolding serve
serve-IsEnd env conn h =
    let d = decode env.http conn.buffer in with_request-IsEnd env conn d.0 d.1 h

-- The server with some tasks done, when the others have had their last rounds too.
abbrev pub drained : Environment → Server → List Task → List Task → Server
drained env s before after = record s {
  tasks = before ++ all_finished after;
  printed = s.printed ++ last_lines env after;
}

abbrev pub ended : Environment → Server → List Task → Connection → List Task → Server
ended env s before conn after = record s {
  tasks = before ++ finished ∷ after;
  printed = s.printed ++ (serve env conn).printed;
}

module _ (env : Environment) where
  pub after_round-ended :
      (s : Server) (before : List Task) (conn : Connection) (after : List Task)
      → IsReady env (running conn)
      → after_round env s before conn after ≡ ended env s before conn after
  after_round-ended s before conn after h =
      let (task, silent) = serve-IsEnd env conn h in
      let piped : s.piped ++ (serve env conn).piped ≡ s.piped =
        ap (λ (t : List Request). s.piped ++ t) silent ∙ append-nil s.piped in
      λ i. record s {
        tasks = before ++ task i ∷ after;
        printed = s.printed ++ (serve env conn).printed;
        piped = piped i;
      }

  regrouped :
      (s : Server) (before after : List Task) (lines more : List (List ℕ))
      → record s {
        tasks = (before ++ finished ∷ []) ++ after;
        printed = (s.printed ++ lines) ++ more;
      }
        ≡ record s { tasks = before ++ finished ∷ after; printed = s.printed ++ (lines ++ more) }
  regrouped s before after lines more = λ i. record s {
    tasks = append_assoc before (finished ∷ []) after i;
    printed = append_assoc s.printed lines more i;
  }

  drain :
      (s : Server) (before after : List Task)
      → s.tasks ≡ before ++ after
      → All (IsReady env) after
      → TaskRounds env s (drained env s before after)
  drain s before [] e h =
      let lines : s.printed ≡ s.printed ++ [] = sym (append-nil s.printed) in
      let path : s ≡ drained env s before [] = λ i. record s { tasks = e i; printed = lines i } in
      subst (TaskRounds env s) path (settled s)
  drain s before (finished ∷ after) e h =
      let front = before ++ finished ∷ [] in
      let path : drained env s front after ≡ drained env s before (finished ∷ after) = λ i.
        record s {
          tasks = append_assoc before (finished ∷ []) (all_finished after) i;
          printed = s.printed ++ last_lines env after;
        } in
      subst (TaskRounds env s) path
        (drain s front after (e ∙ sym (append_assoc before (finished ∷ []) after)) h.1)
  drain s before (running conn ∷ after) e h =
      let front = before ++ finished ∷ [] in
      let u = ended env s before conn after in
      let rest_of = drain u front after (sym (append_assoc before (finished ∷ []) after)) h.1 in
      let whole = drained env u front after in
      let rounds : TaskRounds env (after_round env s before conn after) whole =
        subst (λ v. TaskRounds env v whole) (sym (after_round-ended s before conn after h.0))
          rest_of in
      subst (TaskRounds env s)
        (regrouped s before (all_finished after) (serve env conn).printed (last_lines env after))
        (next_round s before conn after whole e rounds)

  -- A server each of whose running connections has a whole request or an error in its buffer
  -- comes, by rounds of its tasks alone, to the state in which all of them are finished, has
  -- printed the lines of their last rounds, and has piped nothing more.
  pub server_drains :
      (s : Server)
      → All (IsReady env) s.tasks
      → TaskRounds env s
          (record s { tasks = all_finished s.tasks; printed = s.printed ++ last_lines env s.tasks })
  server_drains s h = drain s [] s.tasks refl h
