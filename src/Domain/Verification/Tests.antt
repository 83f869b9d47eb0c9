-- ===== src/Domain/Verification/Tests.antt =====
-- internal/domain/verification.go: evidence in which a command ran well and a criterion stays open.
use mar.Prelude.{◌≡◌, refl, true, false, [], ◌∷◌, ◌==◌}
use mar.Domain.Verification.{
  VerificationEvidence, verification_unverified, acceptance_pass, acceptance_unverified,
  evidence_identity_valid,
}
use mar.Domain.Verification.Verdict.{evidence_identity_valid_judged}

abbrev half_judged : VerificationEvidence
half_judged = record {
  id = 34;
  task_id = 5;
  attempt_id = 9;
  run_epoch = 1;
  goal_hash = 31;
  base_revision = 32;
  candidate_revision = 33;
  profile_id = 62;
  profile_hash = 63;
  environment_json = 64;
  environment_hash = 64;
  commands =
      record {
        name = 65;
        args = [];
        cwd = 0;
        exit_code = 0;
        passed = true;
        duration_ms = 0;
        output_sha256 = 66;
        output_prefix = 0;
        reused = true;
        reused_from_evidence_id = 30;
      }
      ∷ [];
  acceptance =
      record {
        criterion = 67;
        passed = false;
        status = acceptance_pass;
        scenario = 1;
        oracle = 2;
        observation = 3;
        evidence_refs = 65 ∷ [];
      }
      ∷ record {
        criterion = 68;
        passed = false;
        status = acceptance_unverified;
        scenario = 0;
        oracle = 0;
        observation = 0;
        evidence_refs = [];
      }
      ∷ [];
  verdict = verification_unverified;
  integrity_hash = 72;
  created_at = 1;
}

evidence_identity_valid_judged_example : (false ≡ false) × (false ≡ false) × (true ≡ true)
unfolding evidence_identity_valid
evidence_identity_valid_judged_example =
    evidence_identity_valid_judged (λ t. true) (λ t. true) (λ t. t) (λ a b. a == b) half_judged refl
