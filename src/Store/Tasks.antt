-- ===== src/Store/Tasks.antt =====
-- internal/store/sqlite.go: tasks, the attempts that run them, and the fences between attempts.
use mar.Prelude.{
  ℕ, ◌+◌, Bool, true, false, ◌&&◌, ◌||◌, not, ◌∷◌, none, some, ◌==◌, if◌then◌else◌, any,
}
use mar.Sql.{find_where, count_where, update_where}
use mar.Domain.Task.{
  Task, ExecutionAttempt, TaskState, state_eq, is_active, is_terminated, active, logically_fenced,
  physically_terminated, workspace_ready, running,
}
use mar.Store.{
  by_project, Db, Error, ok, err, Tx, done, not_found, idempotency_conflict, state_conflict,
  stale_attempt, physical_fence_required, constraint_failed, get_task_row, get_task, get_attempt,
  is_attempt, live_attempts, set_state,
}

-- A row with the primary key or the unique idempotency key of the task.
abbrev pub collides : Task → Task → Bool
collides task t = t.id == task.id || t.idempotency_key == task.idempotency_key

abbrev pub by_key : ℕ → Task → Bool
by_key key t = t.idempotency_key == key

-- SubmitTask: INSERT OR IGNORE skips a row that collides; a new row refers to a project and
-- begins at epoch 0, the column's default.
unfoldable pub submit_task : Task → Tx (Task × Bool)
submit_task task db =
    if any (collides task) db.tasks
    then elim (find_where (by_key task.idempotency_key) db.tasks) [
      | none ↦ err not_found
      | some existing ↦
          if existing.contract_hash == task.contract_hash
          then ok ((existing, false), db)
          else err idempotency_conflict
    ]
    else if any (by_project task.project_id) db.projects
    then ok ((task, true), record db { tasks = record task { run_epoch = 0 } ∷ db.tasks })
    else err constraint_failed

-- UPDATE tasks … WHERE `hit`, with `e` where no row fits.
abbrev pub move_task : (Task → Bool) → (Task → Task) → Error → Tx (Unit {0})
move_task hit change e db =
    if count_where hit db.tasks == 1
    then done (record db { tasks = update_where hit change db.tasks })
    else err e

-- WHERE id = ? AND state = ? AND NOT EXISTS (a live attempt of the task)
abbrev pub is_settled : ℕ → TaskState → Db → Task → Bool
is_settled task from db t =
    t.id == task && (state_eq t.state from && live_attempts t.id db.attempts == 0)

-- OrchestratorTransition
unfoldable pub orchestrator_transition : ℕ → TaskState → TaskState → ℕ → Tx (Unit {0})
orchestrator_transition task from to now db =
    move_task (is_settled task from db) (set_state to now) state_conflict db

-- RecoverTaskToWorkspaceReady
unfoldable pub recover_task_to_workspace_ready : ℕ → TaskState → ℕ → Tx (Unit {0})
recover_task_to_workspace_ready task from now db =
    move_task (is_settled task from db) (set_state workspace_ready now) physical_fence_required db

-- A row with the primary key or the unique (task_id, run_epoch) of an attempt.
abbrev pub attempt_collides : ExecutionAttempt → ExecutionAttempt → Bool
attempt_collides new a = a.id == new.id || a.task_id == new.task_id && a.run_epoch == new.run_epoch

unfoldable pub insert_attempt : ExecutionAttempt → Tx ExecutionAttempt
insert_attempt new db =
    if any (attempt_collides new) db.attempts
    then err constraint_failed
    else ok (new, record db { attempts = new ∷ db.attempts })

-- WHERE id = ? AND run_epoch = ? AND state = ?
abbrev pub is_ready : ℕ → ℕ → Task → Bool
is_ready task epoch t = t.id == task && (t.run_epoch == epoch && state_eq t.state workspace_ready)

-- The attempt that begins at the epoch after the task's.
abbrev pub new_attempt : Task → ℕ → ℕ → ℕ → ℕ → ℕ → ℕ → ExecutionAttempt
new_attempt t task attempt worker supervisor now lease_deadline = record {
  id = attempt;
  task_id = task;
  run_epoch = t.run_epoch + 1;
  worker_id = worker;
  supervisor_id = supervisor;
  authority_state = active;
  started_at = now;
  heartbeat_at = now;
  lease_deadline = lease_deadline;
  terminated_at = none;
  terminal_status = 0;
}

-- UPDATE tasks SET run_epoch = ?, state = 'RUNNING', updated_at = ?
abbrev pub start_run : ℕ → ℕ → Task → Task
start_run epoch now r = record r { run_epoch = epoch + 1; state = running; updated_at = now }

abbrev pub started : Task → ℕ → ℕ → Db → Db
started t task now db = record db {
  tasks = update_where (is_ready task t.run_epoch) (start_run t.run_epoch now) db.tasks;
}

-- The part of BeginAttempt after the task row is read.
unfoldable pub begin_attempt_of : Task → ℕ → ℕ → ℕ → ℕ → ℕ → ℕ → Tx ExecutionAttempt
begin_attempt_of t task attempt worker supervisor now lease_deadline db =
    if not (state_eq t.state workspace_ready)
    then err state_conflict
    else if not (live_attempts task db.attempts == 0)
    then err physical_fence_required
    else if not (count_where (is_ready task t.run_epoch) db.tasks == 1)
    then err state_conflict
    else insert_attempt (new_attempt t task attempt worker supervisor now lease_deadline)
        (started t task now db)

-- BeginAttempt
unfoldable pub begin_attempt : ℕ → ℕ → ℕ → ℕ → ℕ → ℕ → Tx ExecutionAttempt
begin_attempt task attempt worker supervisor now lease_deadline db = elim (get_task_row task db) [
  | none ↦ err not_found
  | some t ↦ begin_attempt_of t task attempt worker supervisor now lease_deadline db
]

-- EXISTS (SELECT 1 FROM tasks WHERE id = ? AND run_epoch = ?)
abbrev pub is_current : ℕ → ℕ → Db → Bool
is_current task epoch db = any (λ t. t.id == task && t.run_epoch == epoch) db.tasks

-- The WHERE of a heartbeat and of a logical fence: an ACTIVE attempt of the current epoch.
abbrev pub is_current_active : ℕ → ℕ → ℕ → Db → ExecutionAttempt → Bool
is_current_active task attempt epoch db a =
    is_attempt task attempt epoch a && (is_active a.authority_state && is_current task epoch db)

-- UPDATE execution_attempts … WHERE `hit`, with `e` where no row fits.
abbrev pub move_attempt :
    (ExecutionAttempt → Bool) → (ExecutionAttempt → ExecutionAttempt) → Error → Tx (Unit {0})
move_attempt hit change e db =
    if count_where hit db.attempts == 1
    then done (record db { attempts = update_where hit change db.attempts })
    else err e

-- HeartbeatAttempt
unfoldable pub heartbeat_attempt : ℕ → ℕ → ℕ → ℕ → ℕ → Tx (Unit {0})
heartbeat_attempt task attempt epoch now lease_deadline db =
    move_attempt (is_current_active task attempt epoch db)
      (λ a. record a { heartbeat_at = now; lease_deadline = lease_deadline }) stale_attempt db

abbrev pub fence : ℕ → ExecutionAttempt → ExecutionAttempt
fence now a = record a { authority_state = logically_fenced; heartbeat_at = now }

-- LogicalFenceAttempt
unfoldable pub logical_fence_attempt : ℕ → ℕ → ℕ → ℕ → Tx (Unit {0})
logical_fence_attempt task attempt epoch now db =
    move_attempt (is_current_active task attempt epoch db) (fence now) stale_attempt db

abbrev pub is_unterminated : ℕ → ℕ → ℕ → ExecutionAttempt → Bool
is_unterminated task attempt epoch a =
    is_attempt task attempt epoch a && not (is_terminated a.authority_state)

abbrev pub terminate : ℕ → ℕ → ExecutionAttempt → ExecutionAttempt
terminate status now a = record a {
  authority_state = physically_terminated;
  terminated_at = some now;
  terminal_status = status;
}

-- ConfirmAttemptTerminated: a second confirmation of the same attempt is a success.
unfoldable pub confirm_attempt_terminated : ℕ → ℕ → ℕ → ℕ → ℕ → Tx (Unit {0})
confirm_attempt_terminated task attempt epoch status now db =
    if count_where (is_unterminated task attempt epoch) db.attempts == 1
    then done (record db {
      attempts =
          update_where (is_unterminated task attempt epoch) (terminate status now) db.attempts;
    })
    else elim (get_attempt attempt db) [
      | err e ↦ err e
      | ok a ↦
          if is_attempt task attempt epoch a && is_terminated a.authority_state
          then done db
          else err stale_attempt
    ]

-- WHERE id = ? AND state = ? AND run_epoch = ? AND EXISTS (the ACTIVE attempt)
abbrev pub is_attempt_task : ℕ → ℕ → ℕ → TaskState → Db → Task → Bool
is_attempt_task task attempt epoch from db t =
    t.id == task
    && (state_eq t.state from
        && (t.run_epoch == epoch
            && any (λ a. is_attempt t.id attempt epoch a && is_active a.authority_state)
                db.attempts))

-- Why TransitionTaskForAttempt affected no row.
unfoldable pub transition_refusal : ℕ → ℕ → ℕ → Db → Error
transition_refusal task attempt epoch db = elim (get_task task db) [
  | err e ↦ e
  | ok t ↦ if not (t.run_epoch == epoch) then stale_attempt else elim (get_attempt attempt db) [
    | err e ↦ stale_attempt
    | ok a ↦
        if a.run_epoch == epoch && is_active a.authority_state
        then state_conflict
        else stale_attempt
  ]
]

-- TransitionTaskForAttempt
unfoldable pub transition_task_for_attempt : ℕ → ℕ → ℕ → TaskState → TaskState → ℕ → Tx (Unit {0})
transition_task_for_attempt task attempt epoch from to now db =
    move_task (is_attempt_task task attempt epoch from db) (set_state to now)
      (transition_refusal task attempt epoch db) db
