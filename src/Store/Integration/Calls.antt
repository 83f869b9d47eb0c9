-- ===== src/Store/Integration/Calls.antt =====
-- internal/store/integration.go: the calls, each the reads before its transaction and then the
-- transaction, which takes what they read.
use mar.Prelude.{
  ℕ, Bool, true, false, ◌&&◌, ◌||◌, not, [], ◌∷◌, Option, none, some, ◌==◌, if◌then◌else◌, any,
}
use mar.Sql.{find_where}
use mar.Domain.Task.{TaskState, verified, ready_to_integrate, integrating, complete, blocked}
use mar.Domain.Verification.{VerificationEvidence, evidence_identity_valid}
use mar.Domain.Integration.{
  IntegrationStatus, prepared, dispatched, integration_complete, integration_blocked, status_eq,
  IntegrationAttempt, integration_identity_valid, TaskResult, result_identity_valid,
  is_result_verified, is_result_blocked, noted_blocked, noted_attempt_blocked, noted_applied,
}
use mar.Store.{
  Db, Error, Result, ok, err, Tx, not_found, state_conflict, constraint_failed, no_rows,
  integration_integrity, bad_integration, result_integrity, evidence_integrity, set_state, ◌>>◌,
  done,
}
use mar.Store.Tasks.{move_task}
use mar.Store.Integration.{
  Digests, by_integration, by_result, at_status, at_state, latest_result, unless, or_else,
  answering, move_integration, same_version, latest_error, state_error, status_error,
  workspace_error, task_error, fence_error, integration_collides, integration_refers,
  result_collides, result_refers, next_result, draft_integration, is_candidate,
  is_blocked_candidate,
}

-- UPDATE integration_attempts SET status = ?, integrity_hash = ?, updated_at = ?
abbrev pub to_dispatched : ℕ → ℕ → IntegrationAttempt → IntegrationAttempt
to_dispatched hash now a = record a { status = dispatched; integrity_hash = hash; updated_at = now }

-- UPDATE integration_attempts SET status = ?, observed_head = ?, failure = ?, …
abbrev pub to_ended : IntegrationStatus → ℕ → ℕ → ℕ → ℕ → IntegrationAttempt → IntegrationAttempt
to_ended status head failure hash now a = record a {
  status = status;
  observed_head = head;
  failure = failure;
  integrity_hash = hash;
  updated_at = now;
}

module _ (d : Digests) where
  -- IntegrationAttempt.IntegrityDigest
  unfoldable pub integration_digest : IntegrationAttempt → Option ℕ
  integration_digest a = if integration_identity_valid a then some (d.attempt_sha a) else none

  -- IntegrationAttempt.IntegrityValid
  unfoldable pub integration_valid : IntegrationAttempt → Bool
  integration_valid a = elim (integration_digest a) [
    | none ↦ false
    | some h ↦ d.same_hash a.integrity_hash h
  ]

  -- TaskResult.IntegrityValid
  unfoldable pub result_valid : TaskResult → Bool
  result_valid r = result_identity_valid r && d.same_hash (d.result_sha r) r.integrity_hash

  -- VerificationEvidence.IntegrityValid
  unfoldable pub evidence_valid : VerificationEvidence → Bool
  evidence_valid e =
      evidence_identity_valid d.json_valid d.is_digest d.text_sha d.same_hash e
      && d.same_hash (d.evidence_sha e) e.integrity_hash

  -- scanIntegrationAttempt
  unfoldable pub scan_integration_attempt : IntegrationAttempt → Result IntegrationAttempt
  scan_integration_attempt a = if integration_valid a then ok a else err integration_integrity

  -- GetIntegrationAttempt
  unfoldable pub get_integration_attempt : ℕ → Db → Result IntegrationAttempt
  get_integration_attempt id db = elim (find_where (by_integration id) db.integrations) [
    | none ↦ err no_rows
    | some a ↦ scan_integration_attempt a
  ]

  -- integrationAttemptByResult
  unfoldable pub integration_attempt_by_result : ℕ → ℕ → Db → Result (Option IntegrationAttempt)
  integration_attempt_by_result task result db =
      elim (find_where (by_result task result) db.integrations) [
        | none ↦ ok none
        | some a ↦ elim (scan_integration_attempt a) [ err e ↦ err e | ok x ↦ ok (some x) ]
      ]

  -- LatestTaskResult
  unfoldable pub latest_task_result : ℕ → Db → Result (Option TaskResult)
  latest_task_result task db = elim (latest_result task db.results) [
    | none ↦ ok none
    | some r ↦ if result_valid r then ok (some r) else err result_integrity
  ]

  -- GetVerificationEvidence
  unfoldable pub get_verification_evidence : ℕ → Db → Result VerificationEvidence
  get_verification_evidence id db = elim (find_where (λ e. e.id == id) db.evidence) [
    | none ↦ err not_found
    | some e ↦ if evidence_valid e then ok e else err evidence_integrity
  ]

  -- insertIntegrationResultTx
  unfoldable pub insert_integration_result_tx : TaskResult → Tx (Unit {0})
  insert_integration_result_tx r db =
      if not (result_valid r)
      then err result_integrity
      else if any (result_collides r) db.results || not (result_refers r db)
      then err constraint_failed
      else done (record db { results = r ∷ db.results })

  abbrev pub insert_integration : IntegrationAttempt → Tx (Unit {0})
  insert_integration a db =
      if any (integration_collides a) db.integrations || not (integration_refers a db)
      then err constraint_failed
      else done (record db { integrations = a ∷ db.integrations })

  abbrev pub prepared_rows : TaskState → IntegrationAttempt → ℕ → Tx (Unit {0})
  prepared_rows from row now =
      insert_integration row
      >> move_task (at_state row.task_id from) (set_state ready_to_integrate now) state_conflict

  -- The INSERT of a draft and the UPDATE of its task, READY_TO_INTEGRATE from `from`.
  unfoldable pub insert_prepared : TaskState → IntegrationAttempt → ℕ → Tx IntegrationAttempt
  insert_prepared from draft now db = elim (integration_digest draft) [
    | none ↦ err bad_integration
    | some h ↦
        let row = record draft { integrity_hash = h } in
        answering (prepared_rows from row now) row db
  ]

  abbrev pub prepare_error :
      TaskState → (TaskResult → Bool) → IntegrationAttempt → Db → Option Error
  prepare_error from fits seed db = or_else (task_error from seed db) (
      or_else (fence_error seed.task_id db)
        (or_else (workspace_error seed db) (latest_error seed.task_id fits db)))

  -- The transaction of both preparations: `from` is the task's state, and `fits` a check of the
  -- latest result.
  unfoldable pub prepare_tx :
      TaskState → (TaskResult → Bool) → IntegrationAttempt → ℕ → Tx IntegrationAttempt
  prepare_tx from fits seed now db =
      unless (prepare_error from fits seed db)
        (insert_prepared from (draft_integration seed now db) now) db

  -- The reads before that transaction; an attempt for the same result is answered again.
  unfoldable pub prepare :
      TaskState
      → (TaskResult → Bool)
      → (TaskResult → Bool)
      → IntegrationAttempt
      → ℕ
      → Tx IntegrationAttempt
  prepare from accepts fits seed now db = elim (latest_task_result seed.task_id db) [
    | err e ↦ err e
    | ok none ↦ err state_conflict
    | ok (some latest) ↦
        if not (accepts latest)
        then err state_conflict
        else elim (get_verification_evidence seed.evidence_id db) [
          | err e ↦ err e
          | ok _ ↦ elim (integration_attempt_by_result seed.task_id seed.task_result_id db) [
            | err e ↦ err e
            | ok (some existing) ↦ ok (existing, db)
            | ok none ↦ prepare_tx from fits seed now db
          ]
        ]
  ]

  -- PrepareIntegrationAttempt
  unfoldable pub prepare_integration_attempt : IntegrationAttempt → ℕ → Tx IntegrationAttempt
  prepare_integration_attempt seed =
      prepare verified (is_candidate seed)
        (same_version seed.task_result_id seed.task_result_version) seed

  -- PrepareBlockedVerifiedIntegrationAttempt
  unfoldable pub prepare_blocked_verified_integration_attempt :
      IntegrationAttempt → ℕ → Tx IntegrationAttempt
  prepare_blocked_verified_integration_attempt seed =
      prepare blocked (λ r. is_candidate seed r && is_result_blocked r.integration_status)
        (is_blocked_candidate seed.task_result_id seed.task_result_version) seed

  abbrev pub acknowledge_error : ℕ → ℕ → ℕ → Db → Option Error
  acknowledge_error task result version db =
      or_else (state_error task blocked db)
        (or_else (fence_error task db) (latest_error task (is_blocked_candidate result version) db))

  -- AcknowledgeBlockedVerifiedIntegrationRetry
  unfoldable pub acknowledge_blocked_verified_integration_retry : ℕ → ℕ → ℕ → ℕ → Tx (Unit {0})
  acknowledge_blocked_verified_integration_retry task result version now db =
      unless (acknowledge_error task result version db)
        (move_task (at_state task blocked) (λ t. record t { updated_at = now }) state_conflict) db

  -- The transaction of MarkIntegrationDispatched, with the attempt that was read.
  unfoldable pub dispatch_tx : IntegrationAttempt → ℕ → ℕ → Tx (Unit {0})
  dispatch_tx a hash now =
      move_integration (at_status a.id prepared) (to_dispatched hash now)
      >> move_task (at_state a.task_id ready_to_integrate) (set_state integrating now)
          state_conflict

  -- The row of MarkIntegrationDispatched, before it has its hash.
  abbrev pub dispatched_row : IntegrationAttempt → ℕ → IntegrationAttempt
  dispatched_row a now = record a { status = dispatched; updated_at = now }

  -- The latest result of a task that has one.
  abbrev pub with_latest {ℓ} : {A : Type ℓ} → ℕ → (TaskResult → Tx A) → Tx A
  with_latest task k db = elim (latest_task_result task db) [
    | err e ↦ err e
    | ok none ↦ err not_found
    | ok (some latest) ↦ k latest db
  ]

  abbrev pub with_attempt {ℓ} : {A : Type ℓ} → ℕ → (IntegrationAttempt → Tx A) → Tx A
  with_attempt id k db = elim (get_integration_attempt id db) [ err e ↦ err e | ok a ↦ k a db ]

  -- MarkIntegrationDispatched, with the attempt
  unfoldable pub dispatch_read : ℕ → IntegrationAttempt → Tx IntegrationAttempt
  dispatch_read now a db =
      if status_eq a.status dispatched || status_eq a.status integration_complete
      then ok (a, db)
      else if not (status_eq a.status prepared)
      then err state_conflict
      else elim (integration_digest (dispatched_row a now)) [
        | none ↦ err bad_integration
        | some h ↦
            answering (dispatch_tx a h now) (record (dispatched_row a now) { integrity_hash = h })
              db
      ]

  -- MarkIntegrationDispatched
  unfoldable pub mark_integration_dispatched : ℕ → ℕ → Tx IntegrationAttempt
  mark_integration_dispatched id now = with_attempt id (dispatch_read now)

  -- The states of task and attempt that an end of the publication asks for.
  abbrev pub state_at : IntegrationStatus → TaskState
  state_at dispatched = integrating
  state_at _ = ready_to_integrate

  -- What the UPDATEs at the end of a publication do: the attempt `a` goes from `want` to `to`, and
  -- its task from `state` to `end`.
  unfoldable pub close_rows :
      IntegrationAttempt
      → IntegrationStatus
      → IntegrationStatus
      → ℕ
      → ℕ
      → ℕ
      → ℕ
      → TaskState
      → TaskState
      → Tx (Unit {0})
  close_rows a want to head failure hash now state end =
      move_integration (at_status a.id want) (to_ended to head failure hash now)
      >> move_task (at_state a.task_id state) (set_state end now) state_conflict

  abbrev pub ended_row : IntegrationAttempt → IntegrationStatus → ℕ → ℕ → ℕ → IntegrationAttempt
  ended_row a to head failure now = record a {
    status = to;
    observed_head = head;
    failure = failure;
    updated_at = now;
  }

  -- The attempt's new row, with its hash, and its task.
  unfoldable pub end_attempt :
      IntegrationAttempt
      → IntegrationStatus
      → IntegrationStatus
      → TaskResult
      → ℕ
      → ℕ
      → ℕ
      → TaskState
      → Tx TaskResult
  end_attempt a want to result head failure now end db =
      elim (integration_digest (ended_row a to head failure now)) [
        | none ↦ err bad_integration
        | some h ↦ answering (close_rows a want to head failure h now (state_at want) end) result db
      ]

  abbrev pub close_error : IntegrationAttempt → IntegrationStatus → TaskResult → Db → Option Error
  close_error a want latest db = or_else (status_error a.id want db) (
      or_else (state_error a.task_id (state_at want) db)
        (latest_error a.task_id (same_version latest.id latest.version) db))

  -- The transaction that FinalizeIntegrationApplied and BlockIntegrationAttempt share: `result` is
  -- written as the one after `latest`.
  unfoldable pub close_tx :
      IntegrationAttempt
      → IntegrationStatus
      → IntegrationStatus
      → TaskResult
      → TaskResult
      → ℕ
      → ℕ
      → ℕ
      → TaskState
      → Tx TaskResult
  close_tx a want to latest result head failure now end db =
      unless (close_error a want latest db)
        (insert_integration_result_tx result >> end_attempt a want to result head failure now end)
        db

  abbrev pub sealed : TaskResult → TaskResult
  sealed r = record r { integrity_hash = d.result_sha r }

  -- The candidate is what the ref shows, and the result is the one that was to be published.
  abbrev pub is_applied : IntegrationAttempt → ℕ → TaskResult → Bool
  is_applied a head latest =
      status_eq a.status dispatched
      && (head == a.candidate_revision
          && same_version a.task_result_id a.task_result_version latest)

  -- FinalizeIntegrationApplied, with the attempt and the latest result of its task
  unfoldable pub finalize_read : IntegrationAttempt → ℕ → ℕ → ℕ → TaskResult → Tx TaskResult
  finalize_read a head new_result now latest db =
      if status_eq a.status integration_complete
      then ok (latest, db)
      else if not (is_applied a head latest)
      then err state_conflict
      else elim (get_verification_evidence a.evidence_id db) [
        | err e ↦ err e
        | ok _ ↦
            close_tx a dispatched integration_complete latest
              (sealed (next_result latest new_result (noted_applied a.id head) [] true now)) head 0
              now complete db
      ]

  -- FinalizeIntegrationApplied
  unfoldable pub finalize_integration_applied : ℕ → ℕ → ℕ → ℕ → Tx TaskResult
  finalize_integration_applied id head new_result now =
      with_attempt id (λ a. with_latest a.task_id (finalize_read a head new_result now))

  -- BlockIntegrationAttempt, with a PREPARED or DISPATCHED attempt and the latest result
  unfoldable pub block_read : IntegrationAttempt → ℕ → ℕ → ℕ → ℕ → TaskResult → Tx TaskResult
  block_read a head reason new_result now latest db =
      if not (
        same_version a.task_result_id a.task_result_version latest
        && is_result_verified latest.verdict)
      then err state_conflict
      else close_tx a a.status integration_blocked latest
          (sealed
            (next_result latest new_result (noted_attempt_blocked a.id) (reason ∷ []) false now))
          head reason now blocked db

  -- BlockIntegrationAttempt, with the attempt
  unfoldable pub block_attempt_read : ℕ → ℕ → ℕ → ℕ → IntegrationAttempt → Tx TaskResult
  block_attempt_read head reason new_result now a db =
      if status_eq a.status integration_blocked
      then with_latest a.task_id (λ latest db. ok (latest, db)) db
      else if not (status_eq a.status prepared || status_eq a.status dispatched)
      then err state_conflict
      else with_latest a.task_id (block_read a head reason new_result now) db

  -- BlockIntegrationAttempt
  unfoldable pub block_integration_attempt : ℕ → ℕ → ℕ → ℕ → ℕ → Tx TaskResult
  block_integration_attempt id head reason new_result now =
      with_attempt id (block_attempt_read head reason new_result now)

  abbrev pub block_verified_error : ℕ → TaskResult → Db → Option Error
  block_verified_error task latest db =
      or_else (state_error task verified db)
        (latest_error task (same_version latest.id latest.version) db)

  abbrev pub block_rows : ℕ → TaskResult → ℕ → Tx (Unit {0})
  block_rows task result now =
      insert_integration_result_tx result
      >> move_task (at_state task verified) (set_state blocked now) state_conflict

  -- The transaction of BlockVerifiedIntegration.
  unfoldable pub block_verified_tx : ℕ → TaskResult → TaskResult → ℕ → Tx TaskResult
  block_verified_tx task latest result now db =
      unless (block_verified_error task latest db) (answering (block_rows task result now) result)
        db

  -- BlockVerifiedIntegration, with the latest result
  unfoldable pub block_verified_read : ℕ → ℕ → ℕ → ℕ → TaskResult → Tx TaskResult
  block_verified_read task reason new_result now latest db =
      if is_result_blocked latest.integration_status
      then ok (latest, db)
      else if not (is_result_verified latest.verdict)
      then err state_conflict
      else block_verified_tx task latest
          (sealed (next_result latest new_result noted_blocked (reason ∷ []) false now)) now db

  -- BlockVerifiedIntegration
  unfoldable pub block_verified_integration : ℕ → ℕ → ℕ → ℕ → Tx TaskResult
  block_verified_integration task reason new_result now =
      with_latest task (block_verified_read task reason new_result now)
