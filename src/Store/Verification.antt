-- ===== src/Store/Verification.antt =====
-- internal/store/verification.go: PersistVerificationOutcome, which judges an attempt's work. The
-- durable contract is decoded by a parameter, and `trim` is strings.TrimSpace.
pub mod Outcomes
use mar.Prelude.{
  ℕ, Bool, true, false, ◌&&◌, ◌||◌, not, List, [], ◌∷◌, any, Option, none, some, ◌==◌, ◌+◌, ltb,
  if◌then◌else◌,
}
use mar.Sql.{find_where}
use mar.Domain.Task.{Task, TaskState, state_eq, verifying, verified, retry_wait, blocked}
use mar.Domain.Integration.{
  TaskResult, ResultVerdict, result_verified, result_verification_failed, result_unverified,
  result_identity_valid, Workspace,
}
use mar.Domain.Verification.{
  VerificationEvidence, VerificationVerdict, verification_pass, verification_fail,
  verification_unverified, VerificationCommandEvidence, AcceptanceEvidence,
}
use mar.Store.{
  Db, Error, ok, err, Tx, not_found, state_conflict, constraint_failed, bad_json, bad_outcome,
  result_integrity, evidence_integrity, set_state, get_task_row, by_id,
  validate_attempt_authority_tx, ◌>>◌, done,
}
use mar.Store.Tasks.{move_task}
use mar.Store.Integration.{
  Digests, unless, or_else, unless_true, answering, ready_workspace, result_collides, result_refers,
}
use mar.Store.Integration.Calls.{evidence_valid, result_valid}

-- What the call reads of a decoded contract.
pub record Promised : Type 0 where
  pub base_revision : ℕ
  pub verification_profile : ℕ
  pub acceptance : List ℕ

-- hasFailedVerificationCommand
unfoldable pub has_failed_verification_command : List VerificationCommandEvidence → Bool
has_failed_verification_command [] = false
has_failed_verification_command (c ∷ cs) = not c.passed || has_failed_verification_command cs

-- The state that the task gets; `none` where the two verdicts do not go together.
unfoldable pub target_of :
    VerificationVerdict → ResultVerdict → List VerificationCommandEvidence → Option TaskState
target_of verification_pass result_verified commands = some verified
target_of verification_fail result_verification_failed commands =
    some (if has_failed_verification_command commands then retry_wait else blocked)
target_of verification_unverified result_unverified commands = some blocked
target_of _ _ commands = none

-- What the evidence and the result both name.
abbrev pub is_of_evidence : VerificationEvidence → TaskResult → Bool
is_of_evidence e r =
    r.task_id == e.task_id
    && (r.evidence_id == e.id
        && (r.final_revision == e.candidate_revision
            && (r.goal_hash == e.goal_hash && r.base_revision == e.base_revision)))

-- SELECT COALESCE(MAX(version), 0) FROM task_results WHERE task_id = ?
unfoldable pub max_result : ℕ → List TaskResult → ℕ
max_result task [] = 0
max_result task (r ∷ rest) =
    let most = max_result task rest in
    if r.task_id == task then (if ltb most r.version then r.version else most) else most

-- WHERE id = ? AND state = VERIFYING AND run_epoch = ?
abbrev pub is_judged_task : VerificationEvidence → Task → Bool
is_judged_task e t = t.id == e.task_id && (state_eq t.state verifying && t.run_epoch == e.run_epoch)

abbrev pub head_error : VerificationEvidence → Db → Option Error
head_error e db = elim (find_where (ready_workspace e.task_id) db.workspaces) [
  | none ↦ some not_found
  | some w ↦ unless_true state_conflict (w.head_revision == e.candidate_revision)
]

-- INSERT INTO verification_evidence
unfoldable pub insert_evidence : VerificationEvidence → Tx (Unit {0})
insert_evidence e db =
    if any (λ x. x.id == e.id) db.evidence
      || not (any (by_id e.task_id) db.tasks && any (λ a. a.id == e.attempt_id) db.attempts)
    then err constraint_failed
    else done (record db { evidence = e ∷ db.evidence })

-- INSERT INTO task_results
unfoldable pub insert_result : TaskResult → Tx (Unit {0})
insert_result r db =
    if any (result_collides r) db.results || not (result_refers r db)
    then err constraint_failed
    else done (record db { results = r ∷ db.results })

module _ (d : Digests) (trim : ℕ → ℕ) (decode_contract : Task → Option Promised) where
  -- The loop over the contract's criteria.
  unfoldable pub same_criteria : List ℕ → List AcceptanceEvidence → Bool
  same_criteria [] [] = true
  same_criteria (c ∷ cs) (a ∷ rest) = trim c == a.criterion && same_criteria cs rest
  same_criteria _ _ = false

  abbrev pub contract_error : VerificationEvidence → Task → Option Error
  contract_error e t = elim (decode_contract t) [
    | none ↦ some bad_json
    | some p ↦
        or_else
          (unless_true state_conflict (
            state_eq t.state verifying
            && (t.contract_hash == e.goal_hash
                && (p.base_revision == e.base_revision && p.verification_profile == e.profile_id))))
          (unless_true bad_outcome (same_criteria p.acceptance e.acceptance))
  ]

  abbrev pub judged_error : VerificationEvidence → Db → Option Error
  judged_error e db = elim (get_task_row e.task_id db) [
    | none ↦ some not_found
    | some t ↦ contract_error e t
  ]

  -- The result's new row.
  abbrev pub next_row : TaskResult → Db → TaskResult
  next_row r db =
      let versioned = record r { version = max_result r.task_id db.results + 1 } in
      record versioned { integrity_hash = d.result_sha versioned }

  -- The transaction, with the state that the task is to get.
  unfoldable pub persist_tx : VerificationEvidence → TaskResult → TaskState → ℕ → Tx TaskResult
  persist_tx e r target now db =
      let row = next_row r db in
      unless
        (or_else (validate_attempt_authority_tx e.task_id e.attempt_id e.run_epoch db) (
          or_else (judged_error e db)
            (or_else (head_error e db) (unless_true result_integrity (result_valid d row)))))
        (answering
          (insert_evidence e
            >> (insert_result row
                >> move_task (is_judged_task e) (set_state target now) state_conflict))
          row)
        db

  -- PersistVerificationOutcome
  unfoldable pub persist_verification_outcome :
      VerificationEvidence → TaskResult → ℕ → Tx TaskResult
  persist_verification_outcome e r now db =
      if not (evidence_valid d e)
      then err evidence_integrity
      else if not (is_of_evidence e r)
      then err bad_outcome
      else elim (target_of e.verdict r.verdict e.commands) [
        | none ↦ err bad_outcome
        | some target ↦ persist_tx e r target now db
      ]
