-- ===== src/Store/Fencing.antt =====
-- internal/store: at most one attempt of a task may change it, and only at the task's epoch.
use mar.Prelude.{
  ℕ, ◌+◌, ◌≤◌, ◌<◌, ◌≡◌, refl, sym, subst, Distinct, true, false, not, List, [], ◌∷◌, some, ◌==◌,
  if◌then◌else◌, arith, inl, inr, Bool-cases, Option-cases, All, any,
}
use mar.Sql.{find_where, count_where, update_where}
use mar.Domain.Task.{Task, ExecutionAttempt, is_terminated, state_eq, workspace_ready, active}
use mar.Store.{Db, by_id, live_attempts, get_task_row}
use mar.Store.Tasks.{
  begin_attempt, begin_attempt_of, is_ready, attempt_collides, insert_attempt, new_attempt,
  start_run, started,
}
use mar.Store.Tame.{task_ids, task_ids-update_where, Tame, Demoted, Weaker, epoch_of, On, On-if}

-- What the epoch of an attempt says of its task.
abbrev pub Current : List Task → ExecutionAttempt → Type 0
Current tasks a =
    (0 < a.run_epoch)
    × (a.run_epoch ≤ epoch_of a.task_id tasks)
    × (is_terminated a.authority_state ≡ false → a.run_epoch ≡ epoch_of a.task_id tasks)

pub record Fenced (db : Db) : Type 0 where
  pub single : (task : ℕ) → live_attempts task db.attempts ≤ 1
  pub current : All (Current db.tasks) db.attempts

live_attempts-Demoted :
    (task : ℕ) (xs ys : List ExecutionAttempt)
    → Demoted xs ys
    → live_attempts task ys ≤ live_attempts task xs
unfolding count_where
live_attempts-Demoted task [] [] d = omega arith
live_attempts-Demoted task [] (y ∷ ys) d = absurd d
live_attempts-Demoted task (x ∷ xs) [] d = absurd d
live_attempts-Demoted task (x ∷ xs) (y ∷ ys) d =
    ground (arith, live_attempts-Demoted task xs ys d.1)

Current-Weaker :
    (old new : List Task) (a b : ExecutionAttempt)
    → ((id : ℕ) → epoch_of id new ≡ epoch_of id old)
    → Weaker a b
    → Current old a
    → Current new b
Current-Weaker old new a b same w c = ground (arith, same a.task_id, same b.task_id)

All-Current-Demoted :
    (old new : List Task) (xs ys : List ExecutionAttempt)
    → ((id : ℕ) → epoch_of id new ≡ epoch_of id old)
    → Demoted xs ys
    → All (Current old) xs
    → All (Current new) ys
All-Current-Demoted old new [] [] same d c = tt
All-Current-Demoted old new [] (y ∷ ys) same d c = absurd d
All-Current-Demoted old new (x ∷ xs) [] same d c = absurd d
All-Current-Demoted old new (x ∷ xs) (y ∷ ys) same d c =
    (Current-Weaker old new x y same d.0 c.0, All-Current-Demoted old new xs ys same d.1 c.1)

-- Tame changes keep the fence.
pub Tame-Fenced : {db db' : Db} → Tame db db' → Fenced db → Fenced db'
Tame-Fenced {db} {db'} t f = record {
  single = λ task.
      omega (arith, live_attempts-Demoted task db.attempts db'.attempts t.attempts, f.single task);
  current =
      All-Current-Demoted db.tasks db'.tasks db.attempts db'.attempts t.epochs t.attempts f.current;
}

-- What a successful BeginAttempt does.
pub record Begins (task : ℕ) (db : Db) (new : ExecutionAttempt) (db' : Db) : Type 0 where
  pub nothing_live : live_attempts task db.attempts ≡ 0
  pub added : db'.attempts ≡ new ∷ db.attempts
  pub new_id : any (attempt_collides new) db.attempts ≡ false
  pub of_task : new.task_id ≡ task
  pub is_active_now : new.authority_state ≡ active
  pub next_epoch : new.run_epoch ≡ epoch_of task db.tasks + 1
  pub keys : Distinct (task_ids db.tasks) → Distinct (task_ids db'.tasks)
  pub epochs :
      (id : ℕ)
      → epoch_of id db'.tasks
        ≡ (if id == task then epoch_of task db.tasks + 1 else epoch_of id db.tasks)

epoch_of-other :
    (id task epoch now : ℕ) (ts : List Task)
    → (id == task) ≡ false
    → epoch_of id (update_where (is_ready task epoch) (start_run epoch now) ts) ≡ epoch_of id ts
unfolding epoch_of find_where update_where
epoch_of-other id task epoch now [] h = refl
epoch_of-other id task epoch now (t ∷ ts) h = ground (arith, epoch_of-other id task epoch now ts h)

epoch_of-started :
    (task now : ℕ) (ts : List Task) (t : Task)
    → find_where (by_id task) ts ≡ some t
    → state_eq t.state workspace_ready ≡ true
    → epoch_of task (update_where (is_ready task t.run_epoch) (start_run t.run_epoch now) ts)
      ≡ t.run_epoch + 1
unfolding epoch_of find_where update_where
epoch_of-started task now [] t e h = cc
epoch_of-started task now (x ∷ xs) t e h = ground (arith, epoch_of-started task now xs t)

pub epoch_of-found :
    (task : ℕ) (ts : List Task) (t : Task)
    → find_where (by_id task) ts ≡ some t
    → epoch_of task ts ≡ t.run_epoch
unfolding epoch_of
epoch_of-found task ts t e = ground arith

insert_attempt-Begins :
    (t : Task) (task attempt worker supervisor now lease_deadline : ℕ) (db : Db)
    → get_task_row task db ≡ some t
    → state_eq t.state workspace_ready ≡ true
    → live_attempts task db.attempts ≡ 0
    → On (Begins task db) (
        insert_attempt
          (new_attempt t task attempt worker supervisor now lease_deadline)
          (started t task now db))
unfolding insert_attempt
insert_attempt-Begins t task attempt worker supervisor now lease_deadline db e ready quiet =
    let new = new_attempt t task attempt worker supervisor now lease_deadline in
    let epoch = epoch_of-found task db.tasks t e in
    On-if (Begins task db) (any (attempt_collides new) db.attempts) _ _ (λ _. tt)
      λ free. record {
        nothing_live = quiet;
        added = refl;
        new_id = free;
        of_task = refl;
        is_active_now = refl;
        next_epoch = rw epoch;
        keys = subst Distinct (
            sym (
              task_ids-update_where (is_ready task t.run_epoch) (start_run t.run_epoch now) db.tasks
                (λ r. refl)));
        epochs = λ id. elim (Bool-cases (id == task)) [
          | inl y ↦ simp (y, epoch) (ground (arith, epoch_of-started task now db.tasks t e ready))
          | inr n ↦ simp n (epoch_of-other id task t.run_epoch now db.tasks n)
        ];
      }

begin_attempt_of-Begins :
    (t : Task) (task attempt worker supervisor now lease_deadline : ℕ) (db : Db)
    → get_task_row task db ≡ some t
    → On (Begins task db) (begin_attempt_of t task attempt worker supervisor now lease_deadline db)
unfolding begin_attempt_of
begin_attempt_of-Begins t task attempt worker supervisor now lease_deadline db e =
    On-if (Begins task db) (not (state_eq t.state workspace_ready)) _ _ (λ _. tt)
      λ ready.
        On-if (Begins task db) (not (live_attempts task db.attempts == 0)) _ _ (λ _. tt)
          λ quiet.
            On-if (Begins task db) (not (count_where (is_ready task t.run_epoch) db.tasks == 1)) _ _
              (λ _. tt)
              λ _.
                insert_attempt-Begins t task attempt worker supervisor now lease_deadline db e
                  (ground arith) (ground arith)

pub begin_attempt-Begins :
    (task attempt worker supervisor now lease_deadline : ℕ) (db : Db)
    → On (Begins task db) (begin_attempt task attempt worker supervisor now lease_deadline db)
unfolding begin_attempt
begin_attempt-Begins task attempt worker supervisor now lease_deadline db =
    elim (Option-cases (get_task_row task db)) [
      | inl e ↦ rw (e, On, begin_attempt) tt
      | inr (t, e) ↦
          rw (e, On, begin_attempt)
            (begin_attempt_of-Begins t task attempt worker supervisor now lease_deadline db e)
    ]

live_attempts-zero :
    (task : ℕ) (tasks : List Task) (xs : List ExecutionAttempt)
    → live_attempts task xs ≡ 0
    → All (Current tasks) xs
    → All (λ a. a.task_id ≡ task → is_terminated a.authority_state ≡ true) xs
unfolding count_where
live_attempts-zero task tasks [] h c = tt
live_attempts-zero task tasks (x ∷ xs) h c =
    (λ e. ground arith, live_attempts-zero task tasks xs (ground arith) c.1)

All-Current-Begins :
    (task : ℕ) (old new : List Task) (xs : List ExecutionAttempt)
    → ((id : ℕ) → epoch_of id new ≡ (if id == task then epoch_of task old + 1 else epoch_of id old))
    → All (λ a. a.task_id ≡ task → is_terminated a.authority_state ≡ true) xs
    → All (Current old) xs
    → All (Current new) xs
All-Current-Begins task old new [] same q c = tt
All-Current-Begins task old new (x ∷ xs) same q c =
    (ground (arith, same x.task_id), All-Current-Begins task old new xs same q.1 c.1)

live_attempts-cons :
    (id task : ℕ) (new : ExecutionAttempt) (xs : List ExecutionAttempt)
    → new.task_id ≡ task
    → live_attempts task xs ≡ 0
    → live_attempts id xs ≤ 1
    → live_attempts id (new ∷ xs) ≤ 1
unfolding count_where
live_attempts-cons id task new xs e z h = ground arith

-- BeginAttempt keeps the fence.
pub Begins-Fenced :
    (task : ℕ) (db db' : Db) (new : ExecutionAttempt)
    → Begins task db new db'
    → Fenced db
    → Fenced db'
Begins-Fenced task db db' new b f = record {
  single = λ id.
      rw b.added
        (live_attempts-cons id task new db.attempts b.of_task b.nothing_live (f.single id));
  current = rw b.added (
    ground (arith, b.epochs new.task_id),
    All-Current-Begins task db.tasks db'.tasks db.attempts b.epochs
        (live_attempts-zero task db.tasks db.attempts b.nothing_live f.current) f.current,
  );
}
