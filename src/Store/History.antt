-- ===== src/Store/History.antt =====
-- internal/store: any history of calls on projects, tasks, attempts, controls and effects.
use mar.Sql.{update_where}
use mar.Prelude.{true, refl, ℕ, Bool, List, [], ◌∷◌, Option}
use mar.Domain.Task.{Project, Task, ExecutionAttempt, TaskState}
use mar.Domain.Control.{TaskControl, ControlKind}
use mar.Domain.Effect.{EffectRecord, ObservationOutcome}
use mar.Store.{set_state, Db, Result, ok, err}
use mar.Store.Tasks.{
  submit_task, orchestrator_transition, recover_task_to_workspace_ready, begin_attempt,
  heartbeat_attempt, logical_fence_attempt, confirm_attempt_terminated, transition_task_for_attempt,
}
use mar.Store.Recovery.{require_physical_recovery, require_expired_physical_recovery}
use mar.Store.Controls.{publish_task_control, publish_task_input}
use mar.Store.Cancellation.{request_task_cancellation, finalize_task_cancellation}
use mar.Store.Effects.{prepare_effect, mark_effect_dispatched, observe_effect, rearm_not_applied}
use mar.Store.Tame.{update_where-Tame, Tame, Tame-refl, Leads, On}
use mar.Store.Projects.{register_project, delete_project}
use mar.Store.ProjectCalls.{register_project-Tame, delete_project-Tame}
use mar.Store.Calls.{
  orchestrator_transition-Tame, recover_task_to_workspace_ready-Tame,
  transition_task_for_attempt-Tame, heartbeat_attempt-Tame, logical_fence_attempt-Tame,
  confirm_attempt_terminated-Tame, require_physical_recovery-Tame,
  require_expired_physical_recovery-Tame,
}
use mar.Store.ControlCalls.{
  publish_task_control-Tame, publish_task_input-Tame, request_task_cancellation-Tame,
  finalize_task_cancellation-Tame, prepare_effect-Tame, mark_effect_dispatched-Tame,
  observe_effect-Tame, rearm_not_applied-Tame, submit_task-Tame,
}
use mar.Store.Fencing.{Begins, begin_attempt-Begins}

-- The calls, and `restates`: what any other UPDATE of tasks in internal/store may do, which is to
-- set states and times.
pub data Call : Type 0 where
  registers : (ℕ → ℕ) → Project → Call
  deletes : ℕ → Call
  restates : (Task → TaskState) → (Task → ℕ) → Call
  submits : Task → Call
  orchestrates : ℕ → TaskState → TaskState → ℕ → Call
  recovers : ℕ → TaskState → ℕ → Call
  begins : ℕ → ℕ → ℕ → ℕ → ℕ → ℕ → Call
  beats : ℕ → ℕ → ℕ → ℕ → ℕ → Call
  fences : ℕ → ℕ → ℕ → ℕ → Call
  confirms : ℕ → ℕ → ℕ → ℕ → ℕ → Call
  transitions : ℕ → ℕ → ℕ → TaskState → TaskState → ℕ → Call
  requires_recovery : ℕ → ℕ → ℕ → ℕ → Call
  requires_expired : ℕ → ℕ → ℕ → ℕ → Call
  publishes : ℕ → ℕ → ℕ → ControlKind → ℕ → List TaskState → ℕ → Call
  inputs : ℕ → ℕ → ℕ → ℕ → ℕ → Call
  cancels : ℕ → ℕ → ℕ → ℕ → ℕ → Call
  finalizes : ℕ → ℕ → Call
  prepares : (ℕ → Option ℕ) → EffectRecord → Call
  dispatches : ℕ → ℕ → ℕ → ℕ → ℕ → Call
  observes : ℕ → ObservationOutcome → ℕ → ℕ → Call
  rearms : ℕ → ℕ → Call

-- A transaction that fails leaves the store as it was.
abbrev pub settle {ℓ} : {A : Type ℓ} → Db → Result (A × Db) → Db
settle db (ok (_, db')) = db'
settle db (err _) = db

-- The digest of controls and the check of JSON texts are the standard library's.
module _ (digest : TaskControl → Option ℕ) (json_valid : ℕ → Bool) where
  unfoldable pub step : Db → Call → Db
  step db (registers clean p) = settle db (register_project clean p db)
  step db (deletes p) = settle db (delete_project p db)
  step db (restates to at) = record db {
    tasks = update_where (λ t. true) (λ t. set_state (to t) (at t) t) db.tasks;
  }
  step db (submits t) = settle db (submit_task t db)
  step db (orchestrates t from to now) = settle db (orchestrator_transition t from to now db)
  step db (recovers t from now) = settle db (recover_task_to_workspace_ready t from now db)
  step db (begins t a w s now lease) = settle db (begin_attempt t a w s now lease db)
  step db (beats t a e now lease) = settle db (heartbeat_attempt t a e now lease db)
  step db (fences t a e now) = settle db (logical_fence_attempt t a e now db)
  step db (confirms t a e status now) = settle db (confirm_attempt_terminated t a e status now db)
  step db (transitions t a e from to now) =
      settle db (transition_task_for_attempt t a e from to now db)
  step db (requires_recovery t a e now) = settle db (require_physical_recovery t a e now db)
  step db (requires_expired t a e now) = settle db (require_expired_physical_recovery t a e now db)
  step db (publishes c t k kind p allowed now) =
      settle db (publish_task_control digest c t k kind p allowed now db)
  step db (inputs c t k p now) = settle db (publish_task_input digest c t k p now db)
  step db (cancels c t k p now) = settle db (request_task_cancellation digest c t k p now db)
  step db (finalizes t now) = settle db (finalize_task_cancellation t now db)
  step db (prepares encode r) = settle db (prepare_effect encode r db)
  step db (dispatches o t a e now) = settle db (mark_effect_dispatched o t a e now db)
  step db (observes o outcome result now) =
      settle db (observe_effect json_valid o outcome result now db)
  step db (rearms o now) = settle db (rearm_not_applied o now db)

  unfoldable pub run : Db → List Call → Db
  run db [] = db
  run db (c ∷ cs) = run (step db c) cs

settle-Tame {ℓ} :
    {A : Type ℓ} (db : Db) (r : Result (A × Db)) → Leads (Tame db) r → Tame db (settle db r)
settle-Tame db (ok (_, db')) h = h
settle-Tame db (err _) h = Tame-refl db

-- How a call may change the tasks and the attempts.
pub data Change (db db' : Db) : Type 0 where
  tame : Tame db db' → Change db db'
  begun : (task : ℕ) (new : ExecutionAttempt) → Begins task db new db' → Change db db'

settle-Change :
    (task : ℕ) (db : Db) (r : Result (ExecutionAttempt × Db))
    → On (Begins task db) r
    → Change db (settle db r)
settle-Change task db (ok (new, db')) h = begun task new h
settle-Change task db (err _) h = tame (Tame-refl db)

module _ (digest : TaskControl → Option ℕ) (json_valid : ℕ → Bool) where
  pub step-Change : (db : Db) (c : Call) → Change db (step digest json_valid db c)
  unfolding step
  step-Change db (registers clean p) = tame (settle-Tame db _ (register_project-Tame clean p db))
  step-Change db (deletes p) = tame (settle-Tame db _ (delete_project-Tame p db))
  step-Change db (restates to at) =
      tame (update_where-Tame (λ t. true) (λ t. set_state (to t) (at t) t) db (λ t. (refl, refl)))
  step-Change db (submits t) = tame (settle-Tame db _ (submit_task-Tame t db))
  step-Change db (orchestrates t from to now) =
      tame (settle-Tame db _ (orchestrator_transition-Tame t from to now db))
  step-Change db (recovers t from now) =
      tame (settle-Tame db _ (recover_task_to_workspace_ready-Tame t from now db))
  step-Change db (begins t a w s now lease) =
      settle-Change t db _ (begin_attempt-Begins t a w s now lease db)
  step-Change db (beats t a e now lease) =
      tame (settle-Tame db _ (heartbeat_attempt-Tame t a e now lease db))
  step-Change db (fences t a e now) =
      tame (settle-Tame db _ (logical_fence_attempt-Tame t a e now db))
  step-Change db (confirms t a e status now) =
      tame (settle-Tame db _ (confirm_attempt_terminated-Tame t a e status now db))
  step-Change db (transitions t a e from to now) =
      tame (settle-Tame db _ (transition_task_for_attempt-Tame t a e from to now db))
  step-Change db (requires_recovery t a e now) =
      tame (settle-Tame db _ (require_physical_recovery-Tame t a e now db))
  step-Change db (requires_expired t a e now) =
      tame (settle-Tame db _ (require_expired_physical_recovery-Tame t a e now db))
  step-Change db (publishes c t k kind p allowed now) =
      tame (settle-Tame db _ (publish_task_control-Tame digest c t k kind p allowed now db))
  step-Change db (inputs c t k p now) =
      tame (settle-Tame db _ (publish_task_input-Tame digest c t k p now db))
  step-Change db (cancels c t k p now) =
      tame (settle-Tame db _ (request_task_cancellation-Tame digest c t k p now db))
  step-Change db (finalizes t now) =
      tame (settle-Tame db _ (finalize_task_cancellation-Tame t now db))
  step-Change db (prepares encode r) = tame (settle-Tame db _ (prepare_effect-Tame encode r db))
  step-Change db (dispatches o t a e now) =
      tame (settle-Tame db _ (mark_effect_dispatched-Tame o t a e now db))
  step-Change db (observes o outcome result now) =
      tame (settle-Tame db _ (observe_effect-Tame json_valid o outcome result now db))
  step-Change db (rearms o now) = tame (settle-Tame db _ (rearm_not_applied-Tame o now db))
