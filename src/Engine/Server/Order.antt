-- ===== src/Engine/Server/Order.antt =====
-- engine/mod.rs: in which order the tasks of a server take their rounds. What is printed is looked at as a
-- collection, which forgets the order of the lines.
use tache_rs.Prelude.{
  ℕ, ◌≡◌, refl, sym, ap, ◌∙◌, subst, List, [], ◌∷◌, ◌++◌, append_assoc, append-nil, length,
  replicate, All, All-append, All-append_inv,
}
use mathlib.Mathlib.Data.Multiset.Defs.{Multiset, of_list}
use mathlib.Mathlib.Data.Multiset.AddSub.{add, coe-add, add_comm}
use tache_rs.Engine.Serve.{Environment, Connection, Task, running, finished, serve}
use tache_rs.Engine.Server.{Server, after_round, TaskRounds, settled, next_round}
use tache_rs.Engine.Server.Stopped.{length_middle}
use tache_rs.Engine.Server.Drain.{IsReady, last_lines, ended, after_round-ended}

abbrev pub IsFinished : Task → Type 0
IsFinished (running conn) = ⊥
IsFinished finished = Unit

-- The lines that were printed, and those that are still to be.
abbrev pub lines : Environment → Server → Multiset (List ℕ)
lines env s = of_list (s.printed ++ last_lines env s.tasks)

module _ {A : Type 0} where
  swap_front : (xs ys zs : List A) → of_list (xs ++ (ys ++ zs)) ≡ of_list (ys ++ (xs ++ zs))
  swap_front xs ys zs =
      ap of_list (sym (append_assoc xs ys zs))
      ∙ sym (coe-add (xs ++ ys) zs)
      ∙ ap (λ (m : Multiset A). add m (of_list zs))
          (sym (coe-add xs ys) ∙ add_comm (of_list xs) (of_list ys) ∙ coe-add ys xs)
      ∙ coe-add (ys ++ xs) zs
      ∙ ap of_list (append_assoc ys xs zs)

  swap_middle :
      (front xs ys zs : List A)
      → of_list ((front ++ xs) ++ (ys ++ zs)) ≡ of_list (front ++ (ys ++ (xs ++ zs)))
  swap_middle front xs ys zs =
      ap of_list (append_assoc front xs (ys ++ zs))
      ∙ sym (coe-add front (xs ++ (ys ++ zs)))
      ∙ ap (add (of_list front)) (swap_front xs ys zs)
      ∙ coe-add front (ys ++ (xs ++ zs))

last_lines-append :
    (env : Environment) (xs ys : List Task)
    → last_lines env (xs ++ ys) ≡ last_lines env xs ++ last_lines env ys
last_lines-append env [] ys = refl
last_lines-append env (running conn ∷ xs) ys =
    ap (λ (t : List (List ℕ)). (serve env conn).printed ++ t) (last_lines-append env xs ys)
    ∙ sym (append_assoc (serve env conn).printed (last_lines env xs) (last_lines env ys))
last_lines-append env (finished ∷ xs) ys = last_lines-append env xs ys

last_lines-finished :
    (env : Environment) (tasks : List Task) → All IsFinished tasks → last_lines env tasks ≡ []
last_lines-finished env [] h = refl
last_lines-finished env (running conn ∷ tasks) h = elim h.0 [ ]
last_lines-finished env (finished ∷ tasks) h = last_lines-finished env tasks h.1

All-replicate :
    (tasks : List Task) → All IsFinished tasks → tasks ≡ replicate (length tasks) finished
All-replicate [] h = refl
All-replicate (running conn ∷ tasks) h = elim h.0 [ ]
All-replicate (finished ∷ tasks) h = ap (λ (t : List Task). finished ∷ t) (All-replicate tasks h.1)

-- What the rounds of `s` keep.
record Same (env : Environment) (s t : Server) : Type 0 where
  lines_lem : lines env t ≡ lines env s
  tasks_lem : length t.tasks ≡ length s.tasks
  piped_lem : t.piped ≡ s.piped

module _ (env : Environment) where
  ended-Same :
      (s : Server) (before : List Task) (conn : Connection) (after : List Task)
      → s.tasks ≡ before ++ running conn ∷ after
      → Same env s (ended env s before conn after)
  ended-Same s before conn after e =
      let now = (serve env conn).printed in
      let front = last_lines env before in
      let back = last_lines env after in
      record {
        lines_lem =
            ap (λ (l : List (List ℕ)). of_list ((s.printed ++ now) ++ l))
              (last_lines-append env before (finished ∷ after))
            ∙ swap_middle s.printed now front back
            ∙ ap (λ (l : List (List ℕ)). of_list (s.printed ++ l))
                (sym (ap (last_lines env) e ∙ last_lines-append env before (running conn ∷ after)));
        tasks_lem = length_middle before after finished (running conn) ∙ sym (ap length e);
        piped_lem = refl;
      }

  rounds-Same : (s t : Server) → TaskRounds env s t → All (IsReady env) s.tasks → Same env s t
  rounds-Same _ _ (settled s) h = record { lines_lem = refl; tasks_lem = refl; piped_lem = refl }
  rounds-Same _ _ (next_round s before conn after t e more) h =
      let (front, back) =
        All-append_inv (IsReady env) before (running conn ∷ after)
          (subst (All (IsReady env)) e h) in
      let u = after_round env s before conn after in
      let path = sym (after_round-ended env s before conn after back.0) in
      let one = subst (Same env s) path (ended-Same s before conn after e) in
      let later : All (IsReady env) (before ++ finished ∷ after) =
        All-append (IsReady env) before (finished ∷ after) front (tt, back.1) in
      let others = rounds-Same u t more (subst (λ v. All (IsReady env) v.tasks) path later) in
      record {
        lines_lem = others.lines_lem ∙ one.lines_lem;
        tasks_lem = others.tasks_lem ∙ one.tasks_lem;
        piped_lem = others.piped_lem ∙ one.piped_lem;
      }

  printed-All : (t : Server) → All IsFinished t.tasks → lines env t ≡ of_list t.printed
  printed-All t h =
      ap (λ (l : List (List ℕ)). of_list (t.printed ++ l)) (last_lines-finished env t.tasks h)
      ∙ ap of_list (append-nil t.printed)

  -- The tasks of a server each of which has a whole request or an error in its buffer may take
  -- their rounds in any order: two ways to the end of all of them come to the same tasks, have
  -- piped the same, and have printed the same lines but for their order, which are those before
  -- and one round's of each task.
  pub rounds_commute :
      (s t u : Server)
      → All (IsReady env) s.tasks
      → TaskRounds env s t
      → TaskRounds env s u
      → All IsFinished t.tasks
      → All IsFinished u.tasks
      → (t.tasks ≡ u.tasks)
        × (t.piped ≡ u.piped)
        × (of_list t.printed ≡ of_list u.printed)
        × (of_list t.printed ≡ of_list (s.printed ++ last_lines env s.tasks))
  rounds_commute s t u ready one other t_done u_done =
      let first = rounds-Same s t one ready in
      let second = rounds-Same s u other ready in
      let lengths : length t.tasks ≡ length u.tasks = first.tasks_lem ∙ sym second.tasks_lem in
      let whole : of_list t.printed ≡ lines env s = sym (printed-All t t_done) ∙ first.lines_lem in
      (
        All-replicate t.tasks t_done
            ∙ ap (λ (n : ℕ). replicate n finished) lengths
            ∙ sym (All-replicate u.tasks u_done),
        first.piped_lem ∙ sym second.piped_lem,
        whole ∙ sym (sym (printed-All u u_done) ∙ second.lines_lem),
        whole,
      )
