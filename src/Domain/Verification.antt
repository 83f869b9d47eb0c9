-- ===== src/Domain/Verification.antt =====
-- internal/domain/verification.go: the evidence of a verification. An exit code is 0 or not; a text
-- of bytes that is only hashed is a number. The JSON parser, the hex decoder and SHA-256 are
-- parameters.
pub mod Verdict
mod Tests
use mar.Prelude.{
  ℕ, Bool, true, false, ◌&&◌, ◌||◌, not, List, any, all, is_empty, ◌==◌, if◌then◌else◌,
}

pub data VerificationVerdict : Type 0 where
  verification_pass verification_fail verification_unverified : VerificationVerdict
  other_verdict : ℕ → VerificationVerdict

-- `acceptance_unset` is the empty text.
pub data AcceptanceStatus : Type 0 where
  acceptance_unset acceptance_pass acceptance_fail acceptance_unverified : AcceptanceStatus
  other_acceptance : ℕ → AcceptanceStatus

pub record VerificationCommandEvidence : Type 0 where
  pub name : ℕ
  pub args : List ℕ
  pub cwd : ℕ
  pub exit_code : ℕ
  pub passed : Bool
  pub duration_ms : ℕ
  pub output_sha256 : ℕ
  pub output_prefix : ℕ
  pub reused : Bool
  pub reused_from_evidence_id : ℕ

pub record AcceptanceEvidence : Type 0 where
  pub criterion : ℕ
  pub passed : Bool
  pub status : AcceptanceStatus
  pub scenario : ℕ
  pub oracle : ℕ
  pub observation : ℕ
  pub evidence_refs : List ℕ

abbrev effective : AcceptanceStatus → Bool → AcceptanceStatus
effective acceptance_unset passed = if passed then acceptance_pass else acceptance_fail
effective s _ = s

-- AcceptanceEvidence.EffectiveStatus
abbrev pub effective_status : AcceptanceEvidence → AcceptanceStatus
effective_status e = effective e.status e.passed

pub record VerificationEvidence : Type 0 where
  pub id : ℕ
  pub task_id : ℕ
  pub attempt_id : ℕ
  pub run_epoch : ℕ
  pub goal_hash : ℕ
  pub base_revision : ℕ
  pub candidate_revision : ℕ
  pub profile_id : ℕ
  pub profile_hash : ℕ
  pub environment_json : ℕ
  pub environment_hash : ℕ
  pub commands : List VerificationCommandEvidence
  pub acceptance : List AcceptanceEvidence
  pub verdict : VerificationVerdict
  pub integrity_hash : ℕ
  pub created_at : ℕ

abbrev pub is_pass : AcceptanceStatus → Bool
is_pass acceptance_pass = true
is_pass _ = false

abbrev pub is_fail : AcceptanceStatus → Bool
is_fail acceptance_fail = true
is_fail _ = false

abbrev pub is_unverified : AcceptanceStatus → Bool
is_unverified acceptance_unverified = true
is_unverified _ = false

abbrev is_unset : AcceptanceStatus → Bool
is_unset acceptance_unset = true
is_unset _ = false

-- What a criterion that was judged has to name.
abbrev pub is_observed : AcceptanceEvidence → Bool
is_observed e =
    not (is_empty e.evidence_refs)
    && (is_unset e.status || not (e.scenario == 0 || e.oracle == 0 || e.observation == 0))

abbrev pub status_valid : AcceptanceStatus → AcceptanceEvidence → Bool
status_valid acceptance_unverified e = is_empty e.evidence_refs
status_valid acceptance_pass e = is_observed e
status_valid acceptance_fail e = is_observed e
status_valid _ e = false

-- One turn of the loop over the criteria.
abbrev pub criterion_valid : AcceptanceEvidence → Bool
criterion_valid e = not (e.criterion == 0) && status_valid (effective_status e) e

-- The `switch` over the verdict: it takes whether all commands passed, all criteria passed, one
-- failed, and one is unverified.
abbrev pub verdict_valid : VerificationVerdict → Bool → Bool → Bool → Bool → Bool
verdict_valid verification_pass ran met failed open_one = ran && met
verdict_valid verification_unverified ran met failed open_one = ran && (not failed && open_one)
verdict_valid verification_fail ran met failed open_one = not (ran && not failed)
verdict_valid (other_verdict _) ran met failed open_one = false

-- The ids, the epoch and the identity fields.
abbrev pub is_named : VerificationEvidence → Bool
is_named e =
    not (e.id == 0 || e.task_id == 0 || e.attempt_id == 0 || e.run_epoch == 0)
    && not (
        e.goal_hash == 0
        || e.base_revision == 0
        || e.candidate_revision == 0
        || e.profile_id == 0
        || e.profile_hash == 0
        || e.environment_hash == 0)

module _ (json_valid is_digest : ℕ → Bool) (sha : ℕ → ℕ) (same_hash : ℕ → ℕ → Bool) where
  -- One turn of the loop over the commands.
  abbrev pub command_valid : VerificationCommandEvidence → Bool
  command_valid c =
      not (c.name == 0)
      && (is_digest c.output_sha256
          && ((if c.passed then c.exit_code == 0 else not (c.exit_code == 0))
              && (if c.reused
                  then not (c.reused_from_evidence_id == 0) && c.duration_ms == 0
                  else c.reused_from_evidence_id == 0)))

  abbrev pub environment_valid : VerificationEvidence → Bool
  environment_valid e =
      not (e.environment_json == 0)
      && (json_valid e.environment_json && same_hash e.environment_hash (sha e.environment_json))

  -- What follows the loops: the verdict and the time.
  abbrev pub conclusion_valid : VerificationEvidence → Bool
  conclusion_valid e =
      verdict_valid e.verdict (all (λ c. c.passed) e.commands)
        (all (λ a. is_pass (effective_status a)) e.acceptance)
        (any (λ a. is_fail (effective_status a)) e.acceptance)
        (any (λ a. is_unverified (effective_status a)) e.acceptance)
      && not (e.created_at == 0)

  -- VerificationEvidence.ValidateIdentity
  unfoldable pub evidence_identity_valid : VerificationEvidence → Bool
  evidence_identity_valid e =
      is_named e
      && (environment_valid e
          && (not (is_empty e.acceptance)
              && (all command_valid e.commands
                  && (all criterion_valid e.acceptance && conclusion_valid e))))
