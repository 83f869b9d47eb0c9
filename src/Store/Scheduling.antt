-- ===== src/Store/Scheduling.antt =====
-- internal/store/scheduler.go: the queries and the table of the scheduler. The table's key is the
-- project. A contract is decoded by the caller.
use mar.Prelude.{
  ℕ, suc, ◌≡◌, refl, inl, inr, Bool, true, false, ◌&&◌, ◌||◌, List, [], ◌∷◌, Option, none, some,
  ◌==◌, if◌then◌else◌, ltb, arith, Bool-cases, All, All-map, any,
}
use mar.Sql.{find_where, update_where, count_where}
use mar.Domain.Task.{Task, TaskState, state_eq, waiting_resource, blocked}
use mar.Domain.Control.{TaskControl, kind_eq, steer}
use mar.Store.{Db, by_project}
use mar.Store.Controls.{max_version}

pub record ProjectScheduleState : Type 0 where
  pub project_id : ℕ
  pub last_dispatched_at : Option ℕ
  pub dispatch_count : ℕ

-- ORDER BY updated_at ASC, created_at ASC
abbrev pub comes_first : Task → Task → Bool
comes_first a b =
    ltb a.updated_at b.updated_at || (a.updated_at == b.updated_at && ltb a.created_at b.created_at)

-- …, rowid ASC: a newer row goes behind its equals.
unfoldable pub insert_by_time : Task → List Task → List Task
insert_by_time t [] = t ∷ []
insert_by_time t (x ∷ xs) =
    let rest = insert_by_time t xs in if comes_first t x then t ∷ x ∷ xs else x ∷ rest

-- The rows that `wanted` selects, in that order.
unfoldable pub ordered_where : (Task → Bool) → List Task → List Task
ordered_where wanted [] = []
ordered_where wanted (t ∷ ts) =
    let rest = ordered_where wanted ts in if wanted t then insert_by_time t rest else rest

-- ListTasksByState
unfoldable pub list_tasks_by_state : TaskState → Db → List Task
list_tasks_by_state wanted db = ordered_where (λ t. state_eq t.state wanted) db.tasks

-- ListWaitingTasks
unfoldable pub list_waiting_tasks : Db → List Task
list_waiting_tasks = list_tasks_by_state waiting_resource

-- The control that the JOIN finds for a task: the latest of the task, if it is a steer.
abbrev pub is_latest_steer : List TaskControl → Task → TaskControl → Bool
is_latest_steer controls t c =
    c.task_id == t.id && (kind_eq c.kind steer && c.version == max_version t.id controls)

abbrev pub has_fresh_steer : Db → Task → Bool
has_fresh_steer db t =
    state_eq t.state blocked
    && any (λ c. is_latest_steer db.controls t c && ltb t.updated_at c.created_at) db.controls

-- ListBlockedTasksWithFreshSteer
unfoldable pub list_blocked_tasks_with_fresh_steer : Db → List Task
list_blocked_tasks_with_fresh_steer db = ordered_where (has_fresh_steer db) db.tasks

abbrev pub of_project : ℕ → ProjectScheduleState → Bool
of_project id s = s.project_id == id

-- ListProjectScheduleStates, as a function of the project.
unfoldable pub list_project_schedule_states :
    List ProjectScheduleState → ℕ → Option ProjectScheduleState
list_project_schedule_states rows id = find_where (of_project id) rows

abbrev pub dispatched_again : ℕ → ProjectScheduleState → ProjectScheduleState
dispatched_again now s = record s {
  last_dispatched_at = some now;
  dispatch_count = suc s.dispatch_count;
}

-- RecordProjectDispatch: INSERT … ON CONFLICT DO UPDATE; `none` is the foreign key's error.
unfoldable pub record_project_dispatch :
    ℕ → ℕ → Db → List ProjectScheduleState → Option (List ProjectScheduleState)
record_project_dispatch id now db rows =
    if any (of_project id) rows
    then some (update_where (of_project id) (dispatched_again now) rows)
    else if any (by_project id) db.projects
    then some (record { project_id = id; last_dispatched_at = some now; dispatch_count = 1 } ∷ rows)
    else none

-- A list in the order of the queries.
abbrev Ordered : List Task → Type 0
Ordered [] = Unit
Ordered (t ∷ ts) = All (λ x. comes_first x t ≡ false) ts × Ordered ts

All-insert_by_time {κ} :
    (P : Task → Type κ) (t : Task) (xs : List Task) → P t → All P xs → All P (insert_by_time t xs)
unfolding insert_by_time
All-insert_by_time P t [] p h = (p, tt)
All-insert_by_time P t (x ∷ xs) p h = elim (Bool-cases (comes_first t x)) [
  | inl y ↦ rw y (p, h)
  | inr n ↦ rw n (h.0, All-insert_by_time P t xs p h.1)
]

comes_first_trans :
    (a b c : Task) → comes_first a b ≡ true → comes_first c b ≡ false → comes_first c a ≡ false
comes_first_trans a b c h k = ground arith

insert_by_time-Ordered : (t : Task) (xs : List Task) → Ordered xs → Ordered (insert_by_time t xs)
unfolding insert_by_time
insert_by_time-Ordered t [] o = (tt, tt)
insert_by_time-Ordered t (x ∷ xs) o = elim (Bool-cases (comes_first t x)) [
  | inl y ↦ rw y ((ground arith, All-map xs (λ c h. comes_first_trans t x c y h) o.0), o)
  | inr n ↦ rw n (
    All-insert_by_time (λ c. comes_first c x ≡ false) t xs n o.0,
    insert_by_time-Ordered t xs o.1,
  )
]

ordered_where-Ordered : (p : Task → Bool) (ts : List Task) → Ordered (ordered_where p ts)
unfolding ordered_where
ordered_where-Ordered p [] = tt
ordered_where-Ordered p (t ∷ ts) = elim (Bool-cases (p t)) [
  | inl y ↦ rw y (insert_by_time-Ordered t (ordered_where p ts) (ordered_where-Ordered p ts))
  | inr n ↦ rw n (ordered_where-Ordered p ts)
]

count_where-insert_by_time :
    (q : Task → Bool) (t : Task) (xs : List Task)
    → count_where q (insert_by_time t xs) ≡ count_where q (t ∷ xs)
unfolding insert_by_time count_where
count_where-insert_by_time q t [] = refl
count_where-insert_by_time q t (x ∷ xs) = ground (arith, count_where-insert_by_time q t xs)

count_where-ordered_where :
    (q p : Task → Bool) (ts : List Task)
    → count_where q (ordered_where p ts) ≡ count_where (λ t. p t && q t) ts
unfolding ordered_where count_where
count_where-ordered_where q p [] = refl
count_where-ordered_where q p (t ∷ ts) =
    ground
      (arith, count_where-insert_by_time q t (ordered_where p ts), count_where-ordered_where q p ts)

-- The tasks of a state are listed in the order of their last update, those with the same one in the
-- order of their creation, and each as often as the table has it.
list_tasks_by_state-Ordered :
    (wanted : TaskState) (db : Db)
    → Ordered (list_tasks_by_state wanted db)
      × ((q : Task → Bool)
          → count_where q (list_tasks_by_state wanted db)
            ≡ count_where (λ t. state_eq t.state wanted && q t) db.tasks)
unfolding list_tasks_by_state
list_tasks_by_state-Ordered wanted db = (
  ordered_where-Ordered (λ t. state_eq t.state wanted) db.tasks,
  λ q. count_where-ordered_where q (λ t. state_eq t.state wanted) db.tasks,
)
