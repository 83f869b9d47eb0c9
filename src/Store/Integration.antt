-- ===== src/Store/Integration.antt =====
-- internal/store/integration.go, and the queries of verification.go that it needs: the publication
-- of a verified candidate. `Digests` holds SHA-256 over canonical JSON, and strings.EqualFold of
-- two hashes. A read before a transaction is made of the same store as the transaction.
pub mod Calls
pub mod Queries
pub mod Places
pub mod Moves
pub mod Kept
pub mod Steps
pub mod Runs
pub mod Refusals
pub mod Unguarded
pub mod Ends
mod Tests
mod OutcomeTests
use mar.Prelude.{
  ℕ, ◌+◌, Bool, true, false, ◌&&◌, ◌||◌, not, List, [], ◌∷◌, ◌++◌, Option, none, some, ◌==◌,
  if◌then◌else◌, ltb, any,
}
use mar.Sql.{find_where, count_where, update_where}
use mar.Domain.Task.{
  Task, TaskState, state_eq, verified, ready_to_integrate, integrating, complete, blocked,
}
use mar.Domain.Verification.{VerificationEvidence}
use mar.Domain.Integration.{
  IntegrationStatus, prepared, dispatched, integration_complete, integration_blocked, status_eq,
  IntegrationAttempt, integration_identity_valid, TaskResult, result_identity_valid,
  is_result_verified, is_result_blocked, result_blocked, result_integrated, Evidence, noted_blocked,
  noted_attempt_blocked, noted_applied, Workspace, is_usable,
}
use mar.Store.{
  Db, Error, Result, ok, err, Tx, not_found, state_conflict, physical_fence_required,
  constraint_failed, no_rows, integration_integrity, bad_integration, result_integrity,
  evidence_integrity, by_id, by_project, get_task_row, live_attempts, set_state, ◌>>◌, ◌>>=◌, done,
}
use mar.Store.Tasks.{move_task}

pub record Digests : Type 0 where
  pub attempt_sha : IntegrationAttempt → ℕ
  pub result_sha : TaskResult → ℕ
  pub evidence_sha : VerificationEvidence → ℕ
  pub text_sha : ℕ → ℕ
  pub json_valid : ℕ → Bool
  pub is_digest : ℕ → Bool
  pub same_hash : ℕ → ℕ → Bool

-- WHERE integration_attempt_id = ?
abbrev pub by_integration : ℕ → IntegrationAttempt → Bool
by_integration id a = a.id == id

-- WHERE task_id = ? AND task_result_id = ?
abbrev pub by_result : ℕ → ℕ → IntegrationAttempt → Bool
by_result task result a = a.task_id == task && a.task_result_id == result

-- WHERE integration_attempt_id = ? AND status = ?
abbrev pub at_status : ℕ → IntegrationStatus → IntegrationAttempt → Bool
at_status id status a = a.id == id && status_eq a.status status

-- WHERE id = ? AND state = ?
abbrev pub at_state : ℕ → TaskState → Task → Bool
at_state task state t = t.id == task && state_eq t.state state

-- The later of a row and the latest of the others.
abbrev later : TaskResult → Option TaskResult → TaskResult
later r none = r
later r (some s) = if ltb s.version r.version then r else s

-- SELECT … FROM task_results WHERE task_id = ? ORDER BY version DESC LIMIT 1
unfoldable pub latest_result : ℕ → List TaskResult → Option TaskResult
latest_result task [] = none
latest_result task (r ∷ rs) =
    let rest = latest_result task rs in if r.task_id == task then some (later r rest) else rest

-- SELECT COALESCE(MAX(version), 0) FROM integration_attempts WHERE task_id = ?
unfoldable pub max_integration : ℕ → List IntegrationAttempt → ℕ
max_integration task [] = 0
max_integration task (a ∷ rest) =
    let most = max_integration task rest in
    if a.task_id == task then (if ltb most a.version then a.version else most) else most

-- The error, where there is one, in place of the transaction.
abbrev pub unless {ℓ} : {A : Type ℓ} → Option Error → Tx A → Tx A
unless (some e) k db = err e
unless none k db = k db

abbrev pub or_else : Option Error → Option Error → Option Error
or_else (some e) _ = some e
or_else none o = o

abbrev pub unless_true : Error → Bool → Option Error
unless_true e true = none
unless_true e false = some e

-- A transaction that answers a value that is known before it.
abbrev pub answering {ℓ} : {A : Type ℓ} → Tx (Unit {0}) → A → Tx A
answering m a = m >> λ db. ok (a, db)

-- UPDATE integration_attempts … WHERE `hit`
abbrev pub move_integration :
    (IntegrationAttempt → Bool) → (IntegrationAttempt → IntegrationAttempt) → Tx (Unit {0})
move_integration hit change db =
    if count_where hit db.integrations == 1
    then done (record db { integrations = update_where hit change db.integrations })
    else err state_conflict

-- The checks of the latest result that name the same row.
abbrev pub same_version : ℕ → ℕ → TaskResult → Bool
same_version id version r = r.id == id && r.version == version

abbrev pub latest_error : ℕ → (TaskResult → Bool) → Db → Option Error
latest_error task fits db = elim (latest_result task db.results) [
  | none ↦ some no_rows
  | some r ↦ unless_true state_conflict (fits r)
]

abbrev pub state_error : ℕ → TaskState → Db → Option Error
state_error task state db = elim (get_task_row task db) [
  | none ↦ some no_rows
  | some t ↦ unless_true state_conflict (state_eq t.state state)
]

abbrev pub status_error : ℕ → IntegrationStatus → Db → Option Error
status_error id status db = elim (find_where (by_integration id) db.integrations) [
  | none ↦ some no_rows
  | some a ↦ unless_true state_conflict (status_eq a.status status)
]

abbrev pub ready_workspace : ℕ → Workspace → Bool
ready_workspace task w = w.task_id == task && is_usable w.state

abbrev pub workspace_error : IntegrationAttempt → Db → Option Error
workspace_error seed db = elim (find_where (ready_workspace seed.task_id) db.workspaces) [
  | none ↦ some not_found
  | some w ↦
      unless_true state_conflict
        (w.base_revision == seed.expected_head && w.head_revision == seed.candidate_revision)
]

abbrev pub task_error : TaskState → IntegrationAttempt → Db → Option Error
task_error from seed db = elim (get_task_row seed.task_id db) [
  | none ↦ some not_found
  | some t ↦ unless_true state_conflict (state_eq t.state from && t.project_id == seed.project_id)
]

abbrev pub fence_error : ℕ → Db → Option Error
fence_error task db = unless_true physical_fence_required (live_attempts task db.attempts == 0)

-- A row with the primary key, or a unique pair, of the attempt.
abbrev pub integration_collides : IntegrationAttempt → IntegrationAttempt → Bool
integration_collides new a =
    a.id == new.id
    || (a.task_id == new.task_id && a.version == new.version)
    || (a.task_id == new.task_id && a.task_result_id == new.task_result_id)

-- The foreign keys of an attempt.
abbrev pub integration_refers : IntegrationAttempt → Db → Bool
integration_refers new db =
    any (by_id new.task_id) db.tasks
    && (any (by_project new.project_id) db.projects
        && (any (λ r. r.id == new.task_result_id) db.results
            && any (λ e. e.id == new.evidence_id) db.evidence))

abbrev pub result_collides : TaskResult → TaskResult → Bool
result_collides new r = r.id == new.id || (r.task_id == new.task_id && r.version == new.version)

abbrev pub result_refers : TaskResult → Db → Bool
result_refers new db =
    any (by_id new.task_id) db.tasks && any (λ e. e.id == new.evidence_id) db.evidence

-- append([]string{}, …)
abbrev pub explicit : Option (List ℕ) → List ℕ
explicit none = []
explicit (some xs) = xs

-- The result after `latest` of a publication that ended; the hash is still the old one.
abbrev pub next_result : TaskResult → ℕ → Evidence → List ℕ → Bool → ℕ → TaskResult
next_result latest id note risks applied now = record latest {
  id = id;
  version = latest.version + 1;
  integration_status = if applied then result_integrated else result_blocked;
  pass_fail_evidence = latest.pass_fail_evidence ++ (note ∷ []);
  unresolved_risks = some (explicit latest.unresolved_risks ++ risks);
  changed_areas = some (explicit latest.changed_areas);
  verification_executed = some (explicit latest.verification_executed);
  created_at = now;
}

-- The attempt that PrepareIntegrationAttempt inserts, before it has its hash.
abbrev pub draft_integration : IntegrationAttempt → ℕ → Db → IntegrationAttempt
draft_integration seed now db = record seed {
  version = max_integration seed.task_id db.integrations + 1;
  status = prepared;
  observed_head = 0;
  failure = 0;
  created_at = now;
  updated_at = now;
}

-- What both preparations ask of the latest result.
abbrev pub is_candidate : IntegrationAttempt → TaskResult → Bool
is_candidate seed r =
    same_version seed.task_result_id seed.task_result_version r
    && (r.final_revision == seed.task_result_revision
        && (r.final_revision == seed.candidate_revision
            && (r.evidence_id == seed.evidence_id && is_result_verified r.verdict)))

abbrev pub is_blocked_candidate : ℕ → ℕ → TaskResult → Bool
is_blocked_candidate id version r =
    same_version id version r
    && (is_result_verified r.verdict && is_result_blocked r.integration_status)
