-- ===== src/Engine/Server/Stopped.antt =====
-- engine/mod.rs: what is left of a server whose loop has ended.
use tache_rs.Prelude.{
  ◌≤◌, ◌≡◌, refl, sym, ap, ◌∙◌, true, false, some, inl, List, ◌∷◌, ◌++◌, length, length-append,
  arith,
}
use tache_rs.Engine.Serve.{Environment, Connection, Task, running, finished, give_up, serve}
use tache_rs.Std.Io.{IoError}
use tache_rs.Engine.Server.{
  Server, next_incoming, after_round, Step, accept, arrive, round, close, break_off, Steps, done,
  step,
}
use tache_rs.Engine.Server.Safety.{finished_tasks, same_finished, more_finished}

-- From `s` on, a server that has stopped accepting keeps its connections, and those that are
-- finished stay so.
pub record IsStopped (s t : Server) : Type 0 where
  pub off : t.accepting ≡ false
  pub no_more : length t.tasks ≡ length s.tasks
  pub stay_finished : finished_tasks s.tasks ≤ finished_tasks t.tasks

pub length_middle :
    (before after : List Task) (x y : Task)
    → length (before ++ x ∷ after) ≡ length (before ++ y ∷ after)
length_middle before after x y =
    omega (arith, length-append before (x ∷ after), length-append before (y ∷ after))

module _ (env : Environment) where
  -- One task changes in the middle, to one that runs or to one that is finished.
  middle-IsStopped :
      (s t : Server) (before : List Task) (conn : Connection) (after : List Task) (x : Task)
      → s.accepting ≡ false
      → s.tasks ≡ before ++ running conn ∷ after
      → t.accepting ≡ s.accepting
      → t.tasks ≡ before ++ x ∷ after
      → IsStopped s t
  middle-IsStopped s t before conn after x off e same e' = record {
    off = same ∙ off;
    no_more = ap length e' ∙ length_middle before after x (running conn) ∙ sym (ap length e);
    stay_finished = grown x e';
  }
    where
      grown :
          (x : Task)
          → t.tasks ≡ before ++ x ∷ after
          → finished_tasks s.tasks ≤ finished_tasks t.tasks
      grown (running conn') e' =
          rw e' (omega (arith, same_finished env s before conn conn' after e))
      grown finished e' = rw e' (omega (arith, more_finished env s before conn after e))

  step-IsStopped : (s t : Server) → Step env s t → s.accepting ≡ false → IsStopped s t
  step-IsStopped _ _ (accept s incoming on) off = let f : true ≡ false = sym on ∙ off in cc
  step-IsStopped _ _ (arrive s before conn after bytes e) off =
      let x = running (record conn { buffer = conn.buffer ++ bytes }) in
      middle-IsStopped s (record s { tasks = before ++ x ∷ after }) before conn after x off e refl
        refl
  step-IsStopped _ _ (round s before conn after e) off =
      middle-IsStopped s (after_round env s before conn after) before conn after
        (serve env conn).task off e refl refl
  step-IsStopped _ _ (close s before conn after e) off =
      middle-IsStopped s (record s { tasks = before ++ finished ∷ after }) before conn after
        finished off e refl refl
  step-IsStopped _ _ (break_off s before conn after text e) off =
      middle-IsStopped s
        (record s {
          tasks = before ++ finished ∷ after;
          printed = s.printed ++ (give_up text).printed;
        })
        before conn after finished off e refl refl

  Steps-IsStopped : (s t : Server) → Steps env s t → s.accepting ≡ false → IsStopped s t
  Steps-IsStopped _ _ (done s) off = record {
    off = off;
    no_more = refl;
    stay_finished = omega arith;
  }
  Steps-IsStopped _ _ (step s u t first more) off =
      let one = step-IsStopped s u first off in
      let rest = Steps-IsStopped u t more one.off in
      record {
        off = rest.off;
        no_more = rest.no_more ∙ one.no_more;
        stay_finished = omega (arith, one.stay_finished, rest.stay_finished);
      }

  -- After an error of `accept`, one that passes too, no connection is accepted any more; only
  -- the tasks of the connections that are there go on, and none that is finished starts again.
  pub next_incoming-IsStopped :
      (s t : Server) (e : IoError) → Steps env (next_incoming (some (inl e)) s) t → IsStopped s t
  next_incoming-IsStopped s t e steps =
      let h = Steps-IsStopped (next_incoming (some (inl e)) s) t steps refl in
      record { off = h.off; no_more = h.no_more; stay_finished = h.stay_finished }
