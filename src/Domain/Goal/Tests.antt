-- ===== src/Domain/Goal/Tests.antt =====
-- internal/domain/goal.go: a contract with two criteria and their checks.
use mar.Prelude.{ℕ, ◌≡◌, refl, true, List, [], ◌∷◌, ◌++◌, none, arith, contains, Distinct}
use mar.Domain.Goal.{
  GoalContract, validate_goal, validate_checks, validate_oracle, validate_commands, output_contains,
  file_contains,
}
use mar.Domain.Goal.Coverage.{indexes, validate_goal-covers}

-- "x"
abbrev x : List ℕ
x = 120 ∷ []

abbrev contract : GoalContract
contract = record {
  goal = x;
  acceptance = x ∷ x ∷ [];
  acceptance_checks =
      record {
        criterion_index = 2;
        scenario = x;
        oracle = output_contains ++ x;
        command_indexes = 1 ∷ 3 ∷ [];
      }
      ∷ record {
        criterion_index = 1;
        scenario = x;
        oracle = file_contains ++ 97 ∷ 58 ∷ x;
        command_indexes = [];
      }
      ∷ [];
  project_id = x;
  base_revision = x;
  verification_profile = x;
  priority = x;
}

contract_valid : validate_goal contract ≡ none
unfolding validate_goal validate_checks validate_oracle validate_commands
contract_valid = refl

validate_goal-covers_example :
    Distinct (indexes contract.acceptance_checks)
    × (contains 1 (indexes contract.acceptance_checks) ≡ true)
validate_goal-covers_example =
    validate_goal-covers contract 1 contract_valid refl (omega arith) (omega arith)
