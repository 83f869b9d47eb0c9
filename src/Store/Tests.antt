-- ===== src/Store/Tests.antt =====
-- internal/store: a store with one task, and the theorems at concrete inputs.
use mar.Prelude.{
  All, ◌<◌, ℕ, ◌+◌, ◌≡◌, ◌≢◌, refl, Bool, true, false, List, [], ◌∷◌, Option, none, some, arith,
}
use mar.Sql.{find_where, count_where, update_where}
use mar.Domain.Task.{
  Task, ExecutionAttempt, state_eq, logically_fenced, workspace_ready, running, input_required,
  active, blocked,
}
use mar.Domain.Control.{TaskControl, cancel}
use mar.Store.{Db, ok, err, validate_attempt_authority_tx, live_attempts, idempotency_conflict}
use mar.Store.Tasks.{
  logical_fence_attempt, transition_task_for_attempt, orchestrator_transition, begin_attempt,
  begin_attempt_of, insert_attempt, submit_task, confirm_attempt_terminated,
  recover_task_to_workspace_ready, by_key,
}
use mar.Store.Controls.{
  insert_task_control_tx, existing_task_control, task_control_state, max_version,
}
use mar.Store.Cancellation.{request_task_cancellation, revoke}
use mar.Store.Tame.{epoch_of}
use mar.Store.Fencing.{Fenced}
use mar.Store.History.{Call, begins, fences, confirms, recovers, step, run}
use mar.Store.Safety.{Keyed, run-Fenced, run-authority_unique, authority_lost}
use mar.Store.Guards.{transition_task_for_attempt_needs_authority}
use mar.Store.Exclusion.{orchestrator_transition_excludes, begin_attempt_authorizes}
use mar.Store.Replays.{submit_task-submit_task}
use mar.Store.ControlQueries.{latest_task_control, insert_task_control_tx-latest}
use mar.Store.Revocation.{Revoked, request_task_cancellation_revokes}

abbrev errand : Task
errand = record {
  id = 5;
  idempotency_key = 50;
  project_id = 1;
  contract_hash = 500;
  state = workspace_ready;
  run_epoch = 0;
  created_at = 1;
  updated_at = 1;
}

abbrev fresh : Db
fresh = record {
  projects = record { id = 1; root = 8; created_at = 0 } ∷ [];
  tasks = errand ∷ [];
  attempts = [];
  effects = [];
  controls = [];
  integrations = [];
  results = [];
  evidence = [];
  workspaces = [];
  blockers = [];
}

abbrev first_attempt : ExecutionAttempt
first_attempt = record {
  id = 9;
  task_id = 5;
  run_epoch = 1;
  worker_id = 3;
  supervisor_id = 4;
  authority_state = active;
  started_at = 2;
  heartbeat_at = 2;
  lease_deadline = 20;
  terminated_at = none;
  terminal_status = 0;
}

abbrev pub busy : Db
busy = record fresh {
  tasks = record errand { state = running; run_epoch = 1; updated_at = 2 } ∷ [];
  attempts = first_attempt ∷ [];
}

busy-Keyed : Keyed busy
busy-Keyed = record { task_keys = (refl, tt); attempt_keys = (refl, tt) }

begun : begin_attempt 5 9 3 4 2 20 fresh ≡ ok (first_attempt, busy)
unfolding begin_attempt begin_attempt_of insert_attempt find_where count_where update_where state_eq
begun = refl

busy_authority : validate_attempt_authority_tx 5 9 1 busy ≡ none
unfolding validate_attempt_authority_tx find_where
busy_authority = refl

-- The digest of a control, as a function of two of its fields.
abbrev digest : TaskControl → Option ℕ
digest c = some (c.id + c.task_id)

abbrev pub json_valid : ℕ → Bool
json_valid text = true

abbrev history : List Call
history =
    begins 5 9 3 4 2 20
    ∷ fences 5 9 1 3
    ∷ confirms 5 9 1 7 4
    ∷ recovers 5 running 5
    ∷ begins 5 10 3 4 6 30
    ∷ []

-- The second attempt holds the task, and the first has lost it.
second_holds : validate_attempt_authority_tx 5 10 2 (run digest json_valid fresh history) ≡ none
unfolding validate_attempt_authority_tx find_where run step begin_attempt begin_attempt_of
    insert_attempt count_where update_where logical_fence_attempt confirm_attempt_terminated
    recover_task_to_workspace_ready state_eq
second_holds = refl

run-authority_unique_example : (◌≡◌ {A = ℕ} 10 10) × (◌≡◌ {A = ℕ} 2 2)
run-authority_unique_example =
    run-authority_unique digest json_valid fresh history 5 10 10 2 2 refl second_holds second_holds

abbrev fenced : Db
fenced = record busy {
  attempts = record first_attempt { authority_state = logically_fenced; heartbeat_at = 3 } ∷ [];
}

fenced_refused : validate_attempt_authority_tx 5 9 1 fenced ≢ none
unfolding validate_attempt_authority_tx find_where
fenced_refused h = ground arith

authority_lost_example :
    validate_attempt_authority_tx 5 9 1 (
      run digest json_valid fenced
        (confirms 5 9 1 7 4 ∷ recovers 5 running 5 ∷ begins 5 10 3 4 6 30 ∷ []))
    ≢ none
authority_lost_example =
    authority_lost digest json_valid fenced
      (confirms 5 9 1 7 4 ∷ recovers 5 running 5 ∷ begins 5 10 3 4 6 30 ∷ []) 5 9 1 (omega arith)
      refl fenced_refused

fresh-Fenced : Fenced fresh
unfolding count_where
fresh-Fenced = record { single = λ task. omega arith; current = tt }

run-Fenced_example : Fenced (run digest json_valid fresh history)
run-Fenced_example = run-Fenced digest json_valid fresh history fresh-Fenced

transition_task_for_attempt_needs_authority_example :
    validate_attempt_authority_tx 5 9 1 busy ≡ none
unfolding transition_task_for_attempt count_where update_where state_eq
transition_task_for_attempt_needs_authority_example =
    transition_task_for_attempt_needs_authority 5 9 1 running input_required 3 busy
      (record busy {
        tasks = record errand { state = input_required; run_epoch = 1; updated_at = 3 } ∷ [];
      })
      busy-Keyed refl

orchestrator_transition_excludes_example :
    (live_attempts 5 fresh.attempts ≡ 0) × (validate_attempt_authority_tx 5 9 1 fresh ≢ none)
unfolding orchestrator_transition count_where update_where state_eq
orchestrator_transition_excludes_example =
    orchestrator_transition_excludes 5 workspace_ready blocked 3 fresh
      (record fresh { tasks = record errand { state = blocked; updated_at = 3 } ∷ [] }) 9 1 refl

begin_attempt_authorizes_example :
    (live_attempts 5 fresh.attempts ≡ 0)
    × (1 ≡ epoch_of 5 fresh.tasks + 1)
    × (validate_attempt_authority_tx 5 9 1 busy ≡ none)
begin_attempt_authorizes_example =
    begin_attempt_authorizes 5 9 3 4 2 20 fresh busy first_attempt begun

abbrev vacant : Db
vacant = record fresh { tasks = [] }

submitted_once : submit_task errand vacant ≡ ok ((errand, true), fresh)
unfolding submit_task
submitted_once = refl

submit_task-submit_task_example :
    (r : Task) × (find_where (by_key errand.idempotency_key) fresh.tasks ≡ some r)
    × (r.id ≡ 5)
    × (◌≡◌ {A = ℕ} 500 500 → submit_task (record errand { id = 6 }) fresh ≡ ok ((r, false), fresh))
    × (◌≢◌ {A = ℕ} 500 500
        → submit_task (record errand { id = 6 }) fresh ≡ err idempotency_conflict)
submit_task-submit_task_example =
    submit_task-submit_task errand (record errand { id = 6 }) errand true vacant fresh
      submitted_once refl

abbrev stop : TaskControl
stop = record {
  id = 70;
  task_id = 5;
  version = 1;
  idempotency_key = 7;
  kind = cancel;
  payload = 8;
  integrity_hash = 75;
  created_at = 3;
}

abbrev stopped : Db
stopped = record fenced { controls = stop ∷ [] }

cancelled_now : request_task_cancellation digest 70 5 7 8 3 busy ≡ ok ((stop, true), stopped)
unfolding request_task_cancellation existing_task_control task_control_state insert_task_control_tx
    max_version revoke find_where count_where update_where state_eq
cancelled_now = refl

request_task_cancellation_revokes_example : Revoked 5 stopped
request_task_cancellation_revokes_example =
    request_task_cancellation_revokes digest 70 5 7 8 3 stop busy stopped cancelled_now

abbrev inserted : Db
inserted = record busy { controls = stop ∷ [] }

-- A control of another task follows.
abbrev written_after : Db
written_after = record inserted {
  controls = record stop { id = 71; task_id = 6 } ∷ inserted.controls;
}

insert_task_control_tx-latest_example :
    All (λ (d : TaskControl). d.task_id ≡ 5 → d.version < stop.version) busy.controls
    × (latest_task_control digest 5 written_after ≡ ok (some stop))
unfolding insert_task_control_tx max_version
insert_task_control_tx-latest_example =
    insert_task_control_tx-latest digest 70 5 7 cancel 8 3 stop busy inserted written_after
      (record stop { id = 71; task_id = 6 } ∷ []) (λ c h. refl) refl refl (refl, tt)

abbrev two_projects : Db
two_projects = record fresh {
  projects = record { id = 2; root = 9; created_at = 0 } ∷ fresh.projects;
}
