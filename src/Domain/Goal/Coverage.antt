-- ===== src/Domain/Goal/Coverage.antt =====
-- internal/domain/goal.go: the acceptance checks of a valid contract cover its criteria.
use mar.Prelude.{
  ℕ, suc, ◌≤◌, ◌<◌, ◌≡◌, refl, ap, ◌∙◌, true, false, List, [], ◌∷◌, map, none, ◌==◌, arith, inl,
  inr, Bool-cases, length, is_empty, contains, Distinct, ==_iff, ==_refl, Ranged, contains-Distinct,
}
use mar.Domain.Goal.{AcceptanceCheck, GoalContract, validate_goal, validate_checks}

abbrev pub indexes : List AcceptanceCheck → List ℕ
indexes = map (λ c. c.criterion_index)

length-indexes : (cs : List AcceptanceCheck) → length (indexes cs) ≡ length cs
length-indexes [] = refl
length-indexes (c ∷ cs) = ap suc (length-indexes cs)

-- What the loop has found of the indexes that follow.
record Fresh (n : ℕ) (seen : List ℕ) (xs : List ℕ) : Type 0 where
  distinct : Distinct xs
  ranged : Ranged n xs
  unseen : (k : ℕ) → contains k xs ≡ true → contains k seen ≡ false

validate_checks-head :
    (n : ℕ) (seen : List ℕ) (c : AcceptanceCheck) (cs : List AcceptanceCheck)
    → validate_checks n seen (c ∷ cs) ≡ none
    → (0 < c.criterion_index)
      × (c.criterion_index ≤ n)
      × (contains c.criterion_index seen ≡ false)
      × (validate_checks n (c.criterion_index ∷ seen) cs ≡ none)
unfolding validate_checks
validate_checks-head n seen c cs h = ground arith

validate_checks-Fresh :
    (n : ℕ) (seen : List ℕ) (cs : List AcceptanceCheck)
    → validate_checks n seen cs ≡ none
    → Fresh n seen (indexes cs)
validate_checks-Fresh n seen [] h = record {
  distinct = tt;
  ranged = λ k e. ground arith;
  unseen = λ k e. ground arith;
}
validate_checks-Fresh n seen (c ∷ cs) h =
    let (low, high, new, rest) = validate_checks-head n seen c cs h in
    let i = c.criterion_index in
    let f = validate_checks-Fresh n (i ∷ seen) cs rest in
    let self = ==_refl i in
    record {
      distinct = (
        elim (Bool-cases (contains i (indexes cs))) [
          | inr absent ↦ absent
          | inl again ↦ let seen_again = f.unseen i again in absurd (ground arith)
        ],
        f.distinct,
      );
      ranged = λ k e. elim (Bool-cases (k == i)) [
        | inl y ↦ (ground arith, ground arith)
        | inr m ↦ f.ranged k (ground arith)
      ];
      unseen = λ k e. elim (Bool-cases (k == i)) [
        | inl y ↦ let same = (==_iff k i).0 y in ground arith
        | inr m ↦ let later = f.unseen k (ground arith) in ground arith
      ];
    }

validate_goal-checks :
    (g : GoalContract)
    → validate_goal g ≡ none
    → is_empty g.acceptance_checks ≡ false
    → (length g.acceptance_checks ≡ length g.acceptance)
      × (validate_checks (length g.acceptance) [] g.acceptance_checks ≡ none)
unfolding validate_goal
validate_goal-checks g h some_check = ground arith

-- A contract that is valid and has acceptance checks has exactly one check for every acceptance
-- criterion: the indexes of the checks are distinct, and each of 1 to the number of criteria is
-- among them.
pub validate_goal-covers :
    (g : GoalContract) (k : ℕ)
    → validate_goal g ≡ none
    → is_empty g.acceptance_checks ≡ false
    → 0 < k
    → k ≤ length g.acceptance
    → Distinct (indexes g.acceptance_checks) × (contains k (indexes g.acceptance_checks) ≡ true)
validate_goal-covers g k h some_check low high =
    let (full, valid) = validate_goal-checks g h some_check in
    let f = validate_checks-Fresh (length g.acceptance) [] g.acceptance_checks valid in
    (
      f.distinct,
      contains-Distinct (length g.acceptance) k (indexes g.acceptance_checks) f.distinct f.ranged
          (length-indexes g.acceptance_checks ∙ full) low high,
    )
