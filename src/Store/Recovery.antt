-- ===== src/Store/Recovery.antt =====
-- internal/store/recovery.go: what a daemon does with an attempt that it cannot prove dead.
use mar.Prelude.{ℕ, Bool, true, false, ◌&&◌, not, none, some, ◌==◌, if◌then◌else◌, ltb}
use mar.Sql.{find_where, count_where, update_where}
use mar.Domain.Task.{
  Task, ExecutionAttempt, TaskState, state_eq, is_active, is_terminated, blocked, complete, failed,
  cancelled,
}
use mar.Store.{
  Db, Result, ok, err, Tx, done, not_found, state_conflict, stale_attempt, get_task_row, is_attempt,
  set_state, ◌>>◌,
}
use mar.Store.Tasks.{move_task, move_attempt, fence}

-- case TaskComplete, TaskFailed, TaskCancelled
abbrev pub is_final : TaskState → Bool
is_final complete = true
is_final failed = true
is_final cancelled = true
is_final _ = false

abbrev pub is_active_attempt : ℕ → ℕ → ℕ → ExecutionAttempt → Bool
is_active_attempt task attempt epoch a =
    is_attempt task attempt epoch a && is_active a.authority_state

-- An attempt that was read as ACTIVE is fenced.
abbrev pub fence_active : ExecutionAttempt → ℕ → ℕ → ℕ → ℕ → Tx (Unit {0})
fence_active a task attempt epoch now db =
    if is_active a.authority_state
    then move_attempt (is_active_attempt task attempt epoch) (fence now) stale_attempt db
    else done db

-- A task that is not yet BLOCKED becomes so; one that is keeps its time.
abbrev pub block_unblocked : Task → ℕ → ℕ → ℕ → Tx (Unit {0})
block_unblocked t task epoch now db =
    if state_eq t.state blocked
    then done db
    else move_task (λ x. x.id == task && x.run_epoch == epoch) (set_state blocked now)
        state_conflict db

-- The checks that both recoveries begin with: the task's row, at the right epoch and not final,
-- and the attempt's row.
unfoldable pub recovery_rows : ℕ → ℕ → ℕ → Db → Result (Task × ExecutionAttempt)
recovery_rows task attempt epoch db = elim (get_task_row task db) [
  | none ↦ err not_found
  | some t ↦
      if not (t.run_epoch == epoch)
      then err stale_attempt
      else if is_final t.state
      then err state_conflict
      else elim (find_where (is_attempt task attempt epoch) db.attempts) [
        | none ↦ err not_found
        | some a ↦ ok (t, a)
      ]
]

-- RequirePhysicalRecovery
unfoldable pub require_physical_recovery : ℕ → ℕ → ℕ → ℕ → Tx (Unit {0})
require_physical_recovery task attempt epoch now db = elim (recovery_rows task attempt epoch db) [
  | err e ↦ err e
  | ok (t, a) ↦
      if is_terminated a.authority_state
      then err state_conflict
      else (fence_active a task attempt epoch now >> block_unblocked t task epoch now) db
]

-- WHERE … AND authority_state = 'ACTIVE' AND lease_deadline = ?
abbrev pub has_lease : ExecutionAttempt → ℕ → ℕ → ℕ → ExecutionAttempt → Bool
has_lease a task attempt epoch x =
    is_active_attempt task attempt epoch x && x.lease_deadline == a.lease_deadline

abbrev pub blocked_after : Task → ℕ → ℕ → ℕ → Tx Bool
blocked_after t task epoch now db = elim (block_unblocked t task epoch now db) [
  | err e ↦ err e
  | ok (_, db') ↦ ok (true, db')
]

-- RequireExpiredPhysicalRecovery: `false` leaves the store as it was.
unfoldable pub require_expired_physical_recovery : ℕ → ℕ → ℕ → ℕ → Tx Bool
require_expired_physical_recovery task attempt epoch now db =
    elim (recovery_rows task attempt epoch db) [
      | err e ↦ err e
      | ok (t, a) ↦
          if is_terminated a.authority_state
          then ok (false, db)
          else if not (is_active a.authority_state)
          then blocked_after t task epoch now db
          else if ltb now a.lease_deadline
          then ok (false, db)
          else if not (count_where (has_lease a task attempt epoch) db.attempts == 1)
          then ok (false, db)
          else blocked_after t task epoch now (record db {
            attempts = update_where (has_lease a task attempt epoch) (fence now) db.attempts;
          })
    ]
