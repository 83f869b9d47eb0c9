-- ===== src/Store/Cancellation.antt =====
-- internal/store/control.go: RequestTaskCancellation and FinalizeTaskCancellation.
use mar.Prelude.{ℕ, Bool, true, false, ◌&&◌, ◌||◌, not, Option, none, some, ◌==◌, if◌then◌else◌}
use mar.Sql.{count_where, update_where}
use mar.Domain.Task.{
  ExecutionAttempt, TaskState, state_eq, is_active, submitted, preflight, waiting_resource,
  workspace_ready, integrating, cancelled,
}
use mar.Domain.Control.{TaskControl, kind_eq, cancel}
use mar.Store.{
  err, Tx, done, not_found, state_conflict, physical_fence_required, get_task_row, live_attempts,
  set_state,
}
use mar.Store.Tasks.{move_task, fence}
use mar.Store.Recovery.{is_final}
use mar.Store.Controls.{answer_or, insert_task_control_tx, then_keep}

-- The states before any attempt, from which a cancellation takes effect at once.
abbrev pub is_unstarted : TaskState → Bool
is_unstarted submitted = true
is_unstarted preflight = true
is_unstarted waiting_resource = true
is_unstarted workspace_ready = true
is_unstarted _ = false

-- UPDATE tasks SET state = 'CANCELLED' … WHERE id = ? AND state = ?
abbrev pub cancel_task : ℕ → TaskState → ℕ → Tx (Unit {0})
cancel_task task state now =
    move_task (λ t. t.id == task && state_eq t.state state) (set_state cancelled now) state_conflict

abbrev pub is_current_running : ℕ → ℕ → ExecutionAttempt → Bool
is_current_running task epoch a =
    a.task_id == task && (a.run_epoch == epoch && is_active a.authority_state)

-- The `switch state`: a task that has not begun is cancelled; the ACTIVE attempt of one that has
-- is fenced; where there is none, the task is cancelled if no attempt may still change it.
unfoldable pub revoke : ℕ → TaskState × ℕ → ℕ → Tx (Unit {0})
revoke task (state, epoch) now db =
    if is_unstarted state
    then cancel_task task state now db
    else if not (count_where (is_current_running task epoch) db.attempts == 0)
    then done (record db {
      attempts = update_where (is_current_running task epoch) (fence now) db.attempts;
    })
    else if live_attempts task db.attempts == 0
    then cancel_task task state now db
    else done db

-- A state from which a cancellation is refused: final, or past the point of publication.
abbrev pub is_past_cancelling : TaskState → Bool
is_past_cancelling s = is_final s || state_eq s integrating

abbrev pub fresh_cancellation :
    (TaskControl → Option ℕ) → ℕ → ℕ → ℕ → ℕ → ℕ → TaskState × ℕ → Tx TaskControl
fresh_cancellation digest control task key payload now s db =
    if is_past_cancelling s.0
    then err state_conflict
    else then_keep (insert_task_control_tx digest control task key cancel payload now)
        (revoke task s now) db

-- RequestTaskCancellation
unfoldable pub request_task_cancellation :
    (TaskControl → Option ℕ) → ℕ → ℕ → ℕ → ℕ → ℕ → Tx (TaskControl × Bool)
request_task_cancellation digest control task key payload now =
    answer_or digest task key cancel payload
      (fresh_cancellation digest control task key payload now)

abbrev pub is_cancel_of : ℕ → TaskControl → Bool
is_cancel_of task c = c.task_id == task && kind_eq c.kind cancel

-- FinalizeTaskCancellation
unfoldable pub finalize_task_cancellation : ℕ → ℕ → Tx (Unit {0})
finalize_task_cancellation task now db = elim (get_task_row task db) [
  | none ↦ err not_found
  | some t ↦
      if state_eq t.state cancelled
      then done db
      else if count_where (is_cancel_of task) db.controls == 0
      then err state_conflict
      else if not (live_attempts task db.attempts == 0)
      then err physical_fence_required
      else cancel_task task t.state now db
]
