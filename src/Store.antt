-- ===== src/Store.antt =====
-- internal/store: the tables, and the queries that several files share.
-- Failures of the database itself (I/O, a cancelled context, a lock) are not modelled: a statement
-- runs, and an error rolls its transaction back, so the store is as it was.
pub mod Tasks
pub mod Projects
pub mod Recovery
pub mod Controls
pub mod ControlQueries
pub mod Cancellation
pub mod Effects
pub mod Tame
pub mod Calls
pub mod ControlCalls
pub mod ProjectCalls
pub mod Fencing
pub mod Authority
pub mod History
pub mod Safety
pub mod Guards
pub mod Exclusion
pub mod Replays
pub mod ControlReplays
pub mod Revocation
pub mod Dispatches
pub mod OneDispatch
mod EffectTests
pub mod EffectBounds
pub mod Integration
pub mod Scheduling
pub mod Blockers
pub mod Verification
pub mod Tests
use mar.Prelude.{
  ℕ, ◌≡◌, refl, ◌⊎◌, inl, inr, Bool, true, false, ◌&&◌, not, List, [], ◌∷◌, Option, none, some,
  ◌==◌, if◌then◌else◌, any, contains,
}
use mar.Sql.{find_where, count_where}
use mar.Domain.Task.{Project, Task, ExecutionAttempt, TaskState, state_eq, is_active, is_terminated}
use mar.Domain.Effect.{EffectRecord}
use mar.Domain.Control.{TaskControl}
use mar.Domain.Blocker.{TaskBlocker}
use mar.Domain.Integration.{IntegrationAttempt, TaskResult, Workspace}
use mar.Domain.Verification.{VerificationEvidence}

pub record Db : Type 0 where
  pub projects : List Project
  pub tasks : List Task
  pub attempts : List ExecutionAttempt
  pub effects : List EffectRecord
  pub controls : List TaskControl
  pub integrations : List IntegrationAttempt
  pub results : List TaskResult
  pub evidence : List VerificationEvidence
  pub workspaces : List Workspace
  pub blockers : List TaskBlocker

pub data Error : Type 0 where
  project_conflict not_found idempotency_conflict state_conflict stale_attempt : Error
  physical_fence_required constraint_failed : Error
  effect_intent_conflict effect_state_conflict bad_outcome bad_json : Error
  control_idempotency_conflict control_integrity bad_control : Error
  bad_blocker no_rows integration_integrity bad_integration result_integrity evidence_integrity :
      Error

pub data Result {ℓ} (A : Type ℓ) : Type ℓ where
  ok : A → Result A
  err : Error → Result A

pub Result-cases {ℓ} :
    {A : Type ℓ} (r : Result A) → ((e : Error) × (r ≡ err e)) ⊎ ((a : A) × (r ≡ ok a))
Result-cases (err e) = inl (e, refl)
Result-cases (ok a) = inr (a, refl)

-- A transaction: its result and the new store, or an error with the store as it was.
abbrev pub Tx {ℓ} : Type ℓ → Type ℓ
Tx A = Db → Result (A × Db)

infixl 5 ◌>>=◌ ◌>>◌
abbrev pub ◌>>=◌ {ℓ κ} : {A : Type ℓ} {B : Type κ} → Tx A → (A → Tx B) → Tx B
◌>>=◌ m f db = elim (m db) [ err e ↦ err e | ok (a, db') ↦ f a db' ]

abbrev pub ◌>>◌ {ℓ} : {B : Type ℓ} → Tx (Unit {0}) → Tx B → Tx B
m >> k = m >>= λ _. k

abbrev pub done : Db → Result (Unit {0} × Db)
done db = ok (tt, db)

-- SELECT … FROM projects WHERE id = ?
abbrev pub by_project : ℕ → Project → Bool
by_project id p = p.id == id

-- WHERE id = ?
abbrev pub by_id : ℕ → Task → Bool
by_id id t = t.id == id

abbrev pub get_task_row : ℕ → Db → Option Task
get_task_row id db = find_where (by_id id) db.tasks

-- WHERE attempt_id = ?
abbrev pub by_attempt_id : ℕ → ExecutionAttempt → Bool
by_attempt_id id a = a.id == id

-- WHERE attempt_id = ? AND task_id = ? AND run_epoch = ?
abbrev pub is_attempt : ℕ → ℕ → ℕ → ExecutionAttempt → Bool
is_attempt task attempt epoch a = a.id == attempt && (a.task_id == task && a.run_epoch == epoch)

-- WHERE task_id = ? AND authority_state != 'PHYSICALLY_TERMINATED'
abbrev pub is_live : ℕ → ExecutionAttempt → Bool
is_live task a = a.task_id == task && not (is_terminated a.authority_state)

-- SELECT COUNT(*) of the attempts that may still change the task.
abbrev pub live_attempts : ℕ → List ExecutionAttempt → ℕ
live_attempts task attempts = count_where (is_live task) attempts

-- UPDATE tasks SET state = ?, updated_at = ?
abbrev pub set_state : TaskState → ℕ → Task → Task
set_state to now t = record t { state = to; updated_at = now }

-- GetTask
unfoldable pub get_task : ℕ → Db → Result Task
get_task id db = elim (get_task_row id db) [ none ↦ err not_found | some t ↦ ok t ]

-- GetAttempt
unfoldable pub get_attempt : ℕ → Db → Result ExecutionAttempt
get_attempt id db = elim (find_where (by_attempt_id id) db.attempts) [
  | none ↦ err not_found
  | some a ↦ ok a
]

-- The join of tasks and execution_attempts that the authority checks read; `task` and `attempt`
-- are keys, so the join has one row at most.
authority_row : ℕ → ℕ → ℕ → Db → Option (Task × ExecutionAttempt)
authority_row task attempt epoch db = elim (get_task_row task db) [
  | none ↦ none
  | some t ↦ elim (find_where (is_attempt task attempt epoch) db.attempts) [
    | none ↦ none
    | some a ↦ some (t, a)
  ]
]

-- validateAttemptAuthorityTx; `none` is success.
unfoldable pub validate_attempt_authority_tx : ℕ → ℕ → ℕ → Db → Option Error
unfolding authority_row
validate_attempt_authority_tx task attempt epoch db = elim (authority_row task attempt epoch db) [
  | none ↦ some stale_attempt
  | some (t, a) ↦
      if t.run_epoch == epoch && is_active a.authority_state then none else some stale_attempt
]

-- ValidateAttemptAuthority, the check of attempt_authority.go.
unfoldable pub validate_attempt_authority : ℕ → ℕ → ℕ → Db → Option Error
unfolding authority_row
validate_attempt_authority task attempt epoch db =
    if task == 0
    then some stale_attempt
    else if attempt == 0
    then some stale_attempt
    else if epoch == 0
    then some stale_attempt
    else elim (authority_row task attempt epoch db) [
      | none ↦ some stale_attempt
      | some (t, a) ↦
          if t.run_epoch == epoch && is_active a.authority_state then none else some stale_attempt
    ]
