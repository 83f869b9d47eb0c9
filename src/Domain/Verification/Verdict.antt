-- ===== src/Domain/Verification/Verdict.antt =====
-- internal/domain/verification.go: what the verdict of valid evidence says.
use mar.Prelude.{
  ℕ, ◌≡◌, refl, subst, Bool, true, false, ◌&&◌, ◌||◌, not, List, [], ◌∷◌, any, all, ◌==◌, arith,
  is_empty,
}
use mar.Domain.Verification.{
  VerificationVerdict, verification_pass, verification_fail, verification_unverified, other_verdict,
  AcceptanceStatus, acceptance_unset, acceptance_pass, acceptance_fail, acceptance_unverified,
  other_acceptance, VerificationCommandEvidence, AcceptanceEvidence, VerificationEvidence, is_pass,
  is_fail, is_unverified, effective_status, status_valid, criterion_valid, verdict_valid,
  command_valid, evidence_identity_valid, is_named, environment_valid,
}

abbrev pub says_pass : VerificationVerdict → Bool
says_pass verification_pass = true
says_pass _ = false

abbrev pub says_fail : VerificationVerdict → Bool
says_fail verification_fail = true
says_fail _ = false

abbrev pub says_unverified : VerificationVerdict → Bool
says_unverified verification_unverified = true
says_unverified _ = false

-- The command came back with exit code 0, whatever its flag says.
abbrev pub ran_well : VerificationCommandEvidence → Bool
ran_well c = c.exit_code == 0

abbrev pub is_met : AcceptanceEvidence → Bool
is_met a = is_pass (effective_status a)

abbrev pub is_missed : AcceptanceEvidence → Bool
is_missed a = is_fail (effective_status a)

abbrev pub is_open : AcceptanceEvidence → Bool
is_open a = is_unverified (effective_status a)

pub both : (a b : Bool) → (a && b) ≡ true → (a ≡ true) × (b ≡ true)
both true b h = (refl, h)
both false b h = cc

status_is_known :
    (s : AcceptanceStatus) (e : AcceptanceEvidence)
    → status_valid s e ≡ true
    → is_pass s ≡ (not (is_fail s) && not (is_unverified s))
status_is_known acceptance_unset e h = cc
status_is_known acceptance_pass e h = refl
status_is_known acceptance_fail e h = refl
status_is_known acceptance_unverified e h = refl
status_is_known (other_acceptance n) e h = cc

all_met :
    (xs : List AcceptanceEvidence)
    → all criterion_valid xs ≡ true
    → all is_met xs ≡ (not (any is_missed xs) && not (any is_open xs))
all_met [] h = refl
all_met (x ∷ xs) h = ground (arith, status_is_known (effective_status x) x, all_met xs)

verdict_is_judged :
    (v : VerificationVerdict) (ran met failed open_one : Bool)
    → verdict_valid v ran met failed open_one ≡ true
    → met ≡ (not failed && not open_one)
    → (says_pass v ≡ (ran && met))
      × (says_fail v ≡ (not ran || failed))
      × (says_unverified v ≡ (ran && (not failed && open_one)))
verdict_is_judged verification_pass ran met failed open_one h m = ground arith
verdict_is_judged verification_fail ran met failed open_one h m = ground arith
verdict_is_judged verification_unverified ran met failed open_one h m = ground arith
verdict_is_judged (other_verdict n) ran met failed open_one h m = cc

module _ (json_valid is_digest : ℕ → Bool) (sha : ℕ → ℕ) (same_hash : ℕ → ℕ → Bool) where
  all-ran_well :
      (cs : List VerificationCommandEvidence)
      → all (command_valid json_valid is_digest sha same_hash) cs ≡ true
      → all (λ c. c.passed) cs ≡ all ran_well cs
  all-ran_well [] h = refl
  all-ran_well (c ∷ cs) h = ground (arith, all-ran_well cs)

  -- The verdict of valid evidence is determined by what it reports: PASS exactly if every command
  -- came back with exit code 0 and every criterion passed, FAIL exactly if a command came back with
  -- another code or a criterion failed, and UNVERIFIED exactly if every command came back with 0, no
  -- criterion failed, and one is unverified.
  pub evidence_identity_valid_judged :
      (e : VerificationEvidence)
      → evidence_identity_valid json_valid is_digest sha same_hash e ≡ true
      → (says_pass e.verdict ≡ (all ran_well e.commands && all is_met e.acceptance))
        × (says_fail e.verdict ≡ (not (all ran_well e.commands) || any is_missed e.acceptance))
        × (says_unverified e.verdict ≡ (
            all ran_well e.commands
            && (not (any is_missed e.acceptance) && any is_open e.acceptance)))
  unfolding evidence_identity_valid
  evidence_identity_valid_judged e h =
      let (named, in_environment) = both (is_named e) _ h in
      let (environment, judged) =
        both (environment_valid json_valid is_digest sha same_hash e) _ in_environment in
      let (some_criterion, reported) = both (not (is_empty e.acceptance)) _ judged in
      let (commands, on_criteria) = both _ _ reported in
      let (criteria, concluded) = both _ _ on_criteria in
      let (fits, created) = both _ (not (e.created_at == 0)) concluded in
      verdict_is_judged e.verdict (all ran_well e.commands) (all is_met e.acceptance)
        (any is_missed e.acceptance) (any is_open e.acceptance)
        (subst
          (λ b.
            verdict_valid e.verdict b (all is_met e.acceptance) (any is_missed e.acceptance)
              (any is_open e.acceptance)
            ≡ true)
          (all-ran_well e.commands commands) fits)
        (all_met e.acceptance criteria)
