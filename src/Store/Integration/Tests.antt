-- ===== src/Store/Integration/Tests.antt =====
-- internal/store/integration.go: a store with one verified task, and the theorems at concrete
-- inputs.
use mar.Prelude.{List, true, false, none, ℕ, ◌≡◌, refl, [], ◌∷◌, Option, some, ◌==◌}
use mar.Domain.Task.{verified, integrating, cancelled, complete, state_eq}
use mar.Domain.Control.{TaskControl, cancel}
use mar.Domain.Verification.{
  VerificationEvidence, verification_pass, acceptance_unset, evidence_identity_valid,
}
use mar.Domain.Integration.{
  IntegrationAttempt, prepared, dispatched, integration_complete, TaskResult, result_verified,
  other_status, noted, noted_applied, integration_identity_valid, result_identity_valid,
  result_integrated, Workspace, workspace_usable,
}
use mar.Store.{Db, ok, live_attempts}
use mar.Store.Integration.{Digests, latest_result, max_integration, by_integration, same_version}
use mar.Sql.{find_where, count_where, update_where}
use mar.Store.Controls.{
  existing_task_control, task_control_state, insert_task_control_tx, max_version,
}
use mar.Store.Integration.Kept.{elsewhere-Published}
use mar.Store.Integration.Unguarded.{finalize_task_cancellation_unguarded}
use mar.Store.Cancellation.{
  is_cancel_of, finalize_task_cancellation, request_task_cancellation, revoke,
}
use mar.Store.Integration.Calls.{
  integration_digest, integration_valid, result_valid, evidence_valid, scan_integration_attempt,
  get_integration_attempt, integration_attempt_by_result, latest_task_result,
  get_verification_evidence, insert_integration_result_tx, insert_prepared, prepare_tx, prepare,
  prepare_integration_attempt, prepare_blocked_verified_integration_attempt,
  acknowledge_blocked_verified_integration_retry, dispatch_tx, dispatch_read,
  mark_integration_dispatched, close_rows, end_attempt, close_tx, finalize_read,
  finalize_integration_applied, block_read, block_attempt_read, block_integration_attempt,
  block_verified_tx, block_verified_read, block_verified_integration,
}
use mar.Store.Integration.Places.{Published, state_of}
use mar.Store.Integration.Steps.{here, next, prepares, Reach-Published}
use mar.Store.Integration.Runs.{
  Call, AllTimely, finishes_cancelling, prepares_it, dispatches_it, cancels_it, finalizes_it, run,
  step, run-Published, run-dispatched,
}
use mar.Store.Integration.Refusals.{Refused, cancelled_unpublished}
use mar.Store.Integration.Ends.{Ended, finalize_integration_applied_completes}

abbrev pub plain : Digests
plain = record {
  attempt_sha = λ a. 70;
  result_sha = λ r. 71;
  evidence_sha = λ e. 72;
  text_sha = λ t. t;
  json_valid = λ t. true;
  is_digest = λ t. true;
  same_hash = λ a b. a == b;
}

abbrev ready_to_publish : Workspace
ready_to_publish = record {
  id = 60;
  task_id = 5;
  project_id = 2;
  path = 61;
  base_revision = 32;
  head_revision = 33;
  state = workspace_usable;
  failure = 0;
  created_at = 1;
  updated_at = 2;
  removed_at = none;
}

abbrev pub passing : VerificationEvidence
passing = record {
  id = 34;
  task_id = 5;
  attempt_id = 9;
  run_epoch = 1;
  goal_hash = 31;
  base_revision = 32;
  candidate_revision = 33;
  profile_id = 62;
  profile_hash = 63;
  environment_json = 64;
  environment_hash = 64;
  commands =
      record {
        name = 65;
        args = [];
        cwd = 0;
        exit_code = 0;
        passed = true;
        duration_ms = 12;
        output_sha256 = 66;
        output_prefix = 0;
        reused = false;
        reused_from_evidence_id = 0;
      }
      ∷ [];
  acceptance =
      record {
        criterion = 67;
        passed = true;
        status = acceptance_unset;
        scenario = 0;
        oracle = 0;
        observation = 0;
        evidence_refs = 65 ∷ [];
      }
      ∷ [];
  verdict = verification_pass;
  integrity_hash = 72;
  created_at = 1;
}

abbrev pub verified_row : TaskResult
verified_row = record {
  id = 30;
  task_id = 5;
  version = 1;
  goal_hash = 31;
  base_revision = 32;
  final_revision = 33;
  changed_areas = some [];
  evidence_id = 34;
  verification_executed = some [];
  pass_fail_evidence = noted 1 ∷ [];
  unresolved_risks = some [];
  integration_status = other_status 2;
  workspace_disposition = 35;
  resource_summary = 0;
  verdict = result_verified;
  integrity_hash = 71;
  created_at = 3;
}

abbrev pub verified_store : Db
verified_store = record {
  projects = record { id = 1; root = 8; created_at = 0 } ∷ [];
  tasks =
      record {
        id = 5;
        idempotency_key = 50;
        project_id = 1;
        contract_hash = 500;
        state = verified;
        run_epoch = 1;
        created_at = 1;
        updated_at = 1;
      }
      ∷ [];
  attempts = [];
  effects = [];
  controls = [];
  integrations = [];
  results = verified_row ∷ [];
  evidence = passing ∷ [];
  workspaces = ready_to_publish ∷ [];
  blockers = [];
}

abbrev seed : IntegrationAttempt
seed = record {
  id = 40;
  task_id = 5;
  version = 0;
  project_id = 1;
  expected_ref = 41;
  expected_head = 32;
  task_result_id = 30;
  task_result_version = 1;
  task_result_revision = 33;
  candidate_revision = 33;
  evidence_id = 34;
  status = prepared;
  observed_head = 0;
  failure = 0;
  integrity_hash = 0;
  created_at = 0;
  updated_at = 0;
}

abbrev prepared_row : IntegrationAttempt
prepared_row = record seed { version = 1; integrity_hash = 70; created_at = 6; updated_at = 6 }

abbrev dispatched_at_7 : IntegrationAttempt
dispatched_at_7 = record prepared_row { status = dispatched; updated_at = 7 }

abbrev no_digest : TaskControl → Option ℕ
no_digest c = some 1

-- A cancellation that nobody asked for is not finished.
abbrev publication : List Call
publication = finishes_cancelling 5 5 ∷ prepares_it seed 6 ∷ dispatches_it 40 7 ∷ []

abbrev dispatched_store : Db
dispatched_store = run plain no_digest verified_store publication

publication_timely : AllTimely plain no_digest verified_store publication
unfolding run step state_of find_where state_eq
publication_timely = (refl, (tt, (tt, tt)))

abbrev cancelled_store : Db
cancelled_store =
    run plain no_digest verified_store (prepares_it seed 6 ∷ cancels_it 60 5 61 62 8 ∷ [])

verified_store-Published : Published verified_store
verified_store-Published =
    Reach-Published plain no_digest verified_store verified_store (refl, tt) refl here

dispatched_store_rows :
    find_where (by_integration 40) dispatched_store.integrations ≡ some dispatched_at_7
unfolding run step find_where count_where update_where latest_result max_integration
    integration_identity_valid result_identity_valid state_eq state_of integration_digest
    integration_valid result_valid evidence_valid evidence_identity_valid scan_integration_attempt
    get_integration_attempt integration_attempt_by_result latest_task_result
    get_verification_evidence insert_integration_result_tx insert_prepared prepare_tx prepare
    prepare_integration_attempt prepare_blocked_verified_integration_attempt
    acknowledge_blocked_verified_integration_retry dispatch_tx dispatch_read
    mark_integration_dispatched close_rows end_attempt close_tx finalize_read
    finalize_integration_applied block_read block_attempt_read block_integration_attempt
    block_verified_tx block_verified_read block_verified_integration request_task_cancellation
    finalize_task_cancellation existing_task_control task_control_state insert_task_control_tx
    max_version revoke
dispatched_store_rows = refl

cancelled_store_rows :
    find_where (by_integration 40) cancelled_store.integrations ≡ some prepared_row
unfolding run step find_where count_where update_where latest_result max_integration
    integration_identity_valid result_identity_valid state_eq state_of integration_digest
    integration_valid result_valid evidence_valid evidence_identity_valid scan_integration_attempt
    get_integration_attempt integration_attempt_by_result latest_task_result
    get_verification_evidence insert_integration_result_tx insert_prepared prepare_tx prepare
    prepare_integration_attempt prepare_blocked_verified_integration_attempt
    acknowledge_blocked_verified_integration_retry dispatch_tx dispatch_read
    mark_integration_dispatched close_rows end_attempt close_tx finalize_read
    finalize_integration_applied block_read block_attempt_read block_integration_attempt
    block_verified_tx block_verified_read block_verified_integration request_task_cancellation
    finalize_task_cancellation existing_task_control task_control_state insert_task_control_tx
    max_version revoke
cancelled_store_rows = refl

cancelled_store_state : state_of 5 cancelled_store.tasks ≡ some cancelled
unfolding run step find_where count_where update_where latest_result max_integration
    integration_identity_valid result_identity_valid state_eq state_of integration_digest
    integration_valid result_valid evidence_valid evidence_identity_valid scan_integration_attempt
    get_integration_attempt integration_attempt_by_result latest_task_result
    get_verification_evidence insert_integration_result_tx insert_prepared prepare_tx prepare
    prepare_integration_attempt prepare_blocked_verified_integration_attempt
    acknowledge_blocked_verified_integration_retry dispatch_tx dispatch_read
    mark_integration_dispatched close_rows end_attempt close_tx finalize_read
    finalize_integration_applied block_read block_attempt_read block_integration_attempt
    block_verified_tx block_verified_read block_verified_integration request_task_cancellation
    finalize_task_cancellation existing_task_control task_control_state insert_task_control_tx
    max_version revoke
cancelled_store_state = refl

run-dispatched_example : state_of 5 dispatched_store.tasks ≡ some integrating
run-dispatched_example =
    run-dispatched plain no_digest verified_store publication 40 dispatched_at_7 (refl, tt) refl
      publication_timely dispatched_store_rows refl

cancelled_unpublished_example :
    Refused (mark_integration_dispatched plain 40 9 cancelled_store)
    × ((head new_result at : ℕ)
        → Refused (finalize_integration_applied plain 40 head new_result at cancelled_store))
cancelled_unpublished_example =
    cancelled_unpublished plain 40 9 prepared_row cancelled_store
      (run-Published plain no_digest verified_store
        (prepares_it seed 6 ∷ cancels_it 60 5 61 62 8 ∷ []) (tt, (tt, tt)) verified_store-Published)
      cancelled_store_rows refl cancelled_store_state

abbrev integrated : TaskResult
integrated = record verified_row {
  id = 36;
  version = 2;
  pass_fail_evidence = noted 1 ∷ noted_applied 40 33 ∷ [];
  integration_status = result_integrated;
  created_at = 9;
}

abbrev final_store : Db
final_store = run plain no_digest dispatched_store (finalizes_it 40 33 36 9 ∷ [])

final_store_answer :
    finalize_integration_applied plain 40 33 36 9 dispatched_store ≡ ok (integrated, final_store)
unfolding run step find_where count_where update_where latest_result max_integration
    integration_identity_valid result_identity_valid state_eq state_of integration_digest
    integration_valid result_valid evidence_valid evidence_identity_valid scan_integration_attempt
    get_integration_attempt integration_attempt_by_result latest_task_result
    get_verification_evidence insert_integration_result_tx insert_prepared prepare_tx prepare
    prepare_integration_attempt prepare_blocked_verified_integration_attempt
    acknowledge_blocked_verified_integration_retry dispatch_tx dispatch_read
    mark_integration_dispatched close_rows end_attempt close_tx finalize_read
    finalize_integration_applied block_read block_attempt_read block_integration_attempt
    block_verified_tx block_verified_read block_verified_integration request_task_cancellation
    finalize_task_cancellation existing_task_control task_control_state insert_task_control_tx
    max_version revoke
final_store_answer = refl

finalize_integration_applied_completes_example :
    (seed.candidate_revision ≡ dispatched_at_7.candidate_revision)
    × Ended dispatched_at_7 integration_complete 33 complete
        (integrated ∷ dispatched_store.results)
        final_store
    × (latest_result 5 final_store.results ≡ some integrated)
    × (result_integrated ≡ result_integrated)
finalize_integration_applied_completes_example =
    finalize_integration_applied_completes plain 40 33 36 9 dispatched_at_7 integrated
      dispatched_store final_store
      (run-Published plain no_digest verified_store publication publication_timely
        verified_store-Published)
      dispatched_store_rows refl final_store_answer

abbrev prepared_store : Db
prepared_store = run plain no_digest verified_store (prepares_it seed 6 ∷ [])

prepared_store_answer :
    prepare_tx plain verified (same_version 30 1) seed 6 verified_store
    ≡ ok (prepared_row, prepared_store)
unfolding run step find_where count_where update_where latest_result max_integration
    integration_identity_valid result_identity_valid state_eq state_of integration_digest
    integration_valid result_valid evidence_valid evidence_identity_valid scan_integration_attempt
    get_integration_attempt integration_attempt_by_result latest_task_result
    get_verification_evidence insert_integration_result_tx insert_prepared prepare_tx prepare
    prepare_integration_attempt prepare_blocked_verified_integration_attempt
    acknowledge_blocked_verified_integration_retry dispatch_tx dispatch_read
    mark_integration_dispatched close_rows end_attempt close_tx finalize_read
    finalize_integration_applied block_read block_attempt_read block_integration_attempt
    block_verified_tx block_verified_read block_verified_integration request_task_cancellation
    finalize_task_cancellation existing_task_control task_control_state insert_task_control_tx
    max_version revoke
prepared_store_answer = refl

Reach-Published_example : Published prepared_store
Reach-Published_example =
    Reach-Published plain no_digest verified_store prepared_store (refl, tt) refl
      (next here (prepares (same_version 30 1) seed prepared_row 6 prepared_store_answer))

abbrev cancellation : TaskControl
cancellation = record {
  id = 60;
  task_id = 5;
  version = 1;
  idempotency_key = 61;
  kind = cancel;
  payload = 62;
  integrity_hash = 1;
  created_at = 5;
}

-- The dispatched store after a cancellation was asked for.
abbrev asked_store : Db
asked_store = record dispatched_store { controls = cancellation ∷ [] }

asked_store_rows :
    ((count_where (is_cancel_of 5) asked_store.controls == 0) ≡ false)
    × (live_attempts 5 asked_store.attempts ≡ 0)
unfolding run step find_where count_where update_where latest_result max_integration
    integration_identity_valid result_identity_valid state_eq state_of integration_digest
    integration_valid result_valid evidence_valid evidence_identity_valid scan_integration_attempt
    get_integration_attempt integration_attempt_by_result latest_task_result
    get_verification_evidence insert_integration_result_tx insert_prepared prepare_tx prepare
    prepare_integration_attempt prepare_blocked_verified_integration_attempt
    acknowledge_blocked_verified_integration_retry dispatch_tx dispatch_read
    mark_integration_dispatched close_rows end_attempt close_tx finalize_read
    finalize_integration_applied block_read block_attempt_read block_integration_attempt
    block_verified_tx block_verified_read block_verified_integration request_task_cancellation
    finalize_task_cancellation existing_task_control task_control_state insert_task_control_tx
    max_version revoke
asked_store_rows = (refl, refl)

finalize_task_cancellation_unguarded_example :
    (db : Db) × (finalize_task_cancellation 5 8 asked_store ≡ ok (tt, db))
    × (state_of 5 db.tasks ≡ some cancelled)
    × (db.integrations ≡ asked_store.integrations)
    × ¬ (Published db)
finalize_task_cancellation_unguarded_example =
    finalize_task_cancellation_unguarded 40 8 dispatched_at_7 asked_store
      (elsewhere-Published dispatched_store asked_store refl refl (
        run-Published plain no_digest verified_store publication publication_timely
          verified_store-Published))
      dispatched_store_rows refl asked_store_rows.0 asked_store_rows.1
