-- ===== src/Domain/Integration.antt =====
-- internal/domain/integration.go, verification.go and workspace.go: the rows that a publication
-- reads and writes. A text is a number, and every blank text is 0; a time is a number, and the
-- zero time is 0. A status or a verdict outside its constants cannot be written.
use mar.Prelude.{ℕ, Bool, true, false, ◌&&◌, ◌||◌, not, List, Option, none, some, ◌==◌, is_empty}

pub data IntegrationStatus : Type 0 where
  prepared dispatched integration_complete integration_blocked : IntegrationStatus

abbrev pub status_eq : IntegrationStatus → IntegrationStatus → Bool
status_eq prepared prepared = true
status_eq dispatched dispatched = true
status_eq integration_complete integration_complete = true
status_eq integration_blocked integration_blocked = true
status_eq _ _ = false

pub record IntegrationAttempt : Type 0 where
  pub id : ℕ
  pub task_id : ℕ
  pub version : ℕ
  pub project_id : ℕ
  pub expected_ref : ℕ
  pub expected_head : ℕ
  pub task_result_id : ℕ
  pub task_result_version : ℕ
  pub task_result_revision : ℕ
  pub candidate_revision : ℕ
  pub evidence_id : ℕ
  pub status : IntegrationStatus
  pub observed_head : ℕ
  pub failure : ℕ
  pub integrity_hash : ℕ
  pub created_at : ℕ
  pub updated_at : ℕ

-- IntegrationAttempt.ValidateIdentity
unfoldable pub integration_identity_valid : IntegrationAttempt → Bool
integration_identity_valid a =
    not (
      a.id == 0
      || a.task_id == 0
      || a.project_id == 0
      || a.expected_ref == 0
      || a.expected_head == 0
      || a.task_result_id == 0
      || a.task_result_revision == 0
      || a.candidate_revision == 0
      || a.evidence_id == 0)
    && (not (a.version == 0 || a.task_result_version == 0)
        && not (a.created_at == 0 || a.updated_at == 0))

pub data ResultVerdict : Type 0 where
  result_verified result_verification_failed result_unverified : ResultVerdict

abbrev pub is_result_verified : ResultVerdict → Bool
is_result_verified result_verified = true
is_result_verified _ = false

-- The texts of integration_status that the store writes or compares, and any other.
pub data ResultIntegration : Type 0 where
  result_blocked result_integrated : ResultIntegration
  other_status : ℕ → ResultIntegration

abbrev pub is_result_blocked : ResultIntegration → Bool
is_result_blocked result_blocked = true
is_result_blocked _ = false

abbrev pub is_blank_status : ResultIntegration → Bool
is_blank_status (other_status n) = n == 0
is_blank_status _ = false

-- The texts of pass_fail_evidence: those that the store builds, and any other.
pub data Evidence : Type 0 where
  noted : ℕ → Evidence
  noted_blocked : Evidence
  noted_attempt_blocked : ℕ → Evidence
  noted_applied : ℕ → ℕ → Evidence

-- A list is `none` where the array is nil. `resource_summary` stands for a summary without
-- negative counts.
pub record TaskResult : Type 0 where
  pub id : ℕ
  pub task_id : ℕ
  pub version : ℕ
  pub goal_hash : ℕ
  pub base_revision : ℕ
  pub final_revision : ℕ
  pub changed_areas : Option (List ℕ)
  pub evidence_id : ℕ
  pub verification_executed : Option (List ℕ)
  pub pass_fail_evidence : List Evidence
  pub unresolved_risks : Option (List ℕ)
  pub integration_status : ResultIntegration
  pub workspace_disposition : ℕ
  pub resource_summary : ℕ
  pub verdict : ResultVerdict
  pub integrity_hash : ℕ
  pub created_at : ℕ

abbrev is_explicit : Option (List ℕ) → Bool
is_explicit none = false
is_explicit (some _) = true

-- TaskResult.ValidateIdentity
unfoldable pub result_identity_valid : TaskResult → Bool
result_identity_valid r =
    not (r.id == 0 || r.task_id == 0 || r.version == 0)
    && (not (
          r.goal_hash == 0
          || r.base_revision == 0
          || r.final_revision == 0
          || r.evidence_id == 0
          || is_blank_status r.integration_status
          || r.workspace_disposition == 0)
        && ((is_explicit r.changed_areas && is_explicit r.unresolved_risks)
            && ((is_explicit r.verification_executed && not (is_empty r.pass_fail_evidence))
                && not (r.created_at == 0))))

-- internal/domain/workspace.go
pub data WorkspaceState : Type 0 where
  workspace_preparing workspace_usable workspace_failed workspace_checkpointing : WorkspaceState
  workspace_checkpointed workspace_removing workspace_removed : WorkspaceState

-- state = READY
abbrev pub is_usable : WorkspaceState → Bool
is_usable workspace_usable = true
is_usable _ = false

pub record Workspace : Type 0 where
  pub id : ℕ
  pub task_id : ℕ
  pub project_id : ℕ
  pub path : ℕ
  pub base_revision : ℕ
  pub head_revision : ℕ
  pub state : WorkspaceState
  pub failure : ℕ
  pub created_at : ℕ
  pub updated_at : ℕ
  pub removed_at : Option ℕ
