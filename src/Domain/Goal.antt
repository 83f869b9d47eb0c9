-- ===== src/Domain/Goal.antt =====
-- internal/domain/goal.go: the validation of a goal contract. A text is a list of code points.
-- An int index is a number: the source's test for an index below 1 is the test for 0.
pub mod Coverage
mod Tests
use mar.Text.{trim_space, is_blank, after_prefix, split_colon}
use mar.Prelude.{
  ℕ, Bool, true, false, ◌||◌, not, List, [], ◌∷◌, Option, none, some, ◌==◌, if◌then◌else◌, ltb,
  length, is_empty, contains,
}

pub record AcceptanceCheck : Type 0 where
  pub criterion_index : ℕ
  pub scenario : List ℕ
  pub oracle : List ℕ
  pub command_indexes : List ℕ

-- The fields that Validate reads.
pub record GoalContract : Type 0 where
  pub goal : List ℕ
  pub acceptance : List (List ℕ)
  pub acceptance_checks : List AcceptanceCheck
  pub project_id : List ℕ
  pub base_revision : List ℕ
  pub verification_profile : List ℕ
  pub priority : List ℕ

pub data GoalError : Type 0 where
  no_goal no_acceptance blank_criterion checks_uncovered criterion_range criterion_repeated :
      GoalError
  no_scenario blank_literal no_command blank_file file_command bad_oracle : GoalError
  command_range command_repeated no_project no_revision no_profile no_priority : GoalError

-- A check that returns early with its error, and what follows it.
infixr 5 ◌then_check◌
abbrev ◌then_check◌ : Option GoalError → Option GoalError → Option GoalError
some e then_check rest = some e
none then_check rest = rest

abbrev require : Bool → GoalError → Option GoalError
require holds e = if holds then none else some e

abbrev any_blank : List (List ℕ) → Bool
any_blank [] = false
any_blank (t ∷ ts) = is_blank t || any_blank ts

-- "output_contains:"
abbrev output_contains : List ℕ
output_contains =
    111 ∷ 117 ∷ 116 ∷ 112 ∷ 117 ∷ 116 ∷ 95 ∷ 99 ∷ 111 ∷ 110 ∷ 116 ∷ 97 ∷ 105 ∷ 110 ∷ 115 ∷ 58 ∷ []

-- "file_contains:"
abbrev file_contains : List ℕ
file_contains = 102 ∷ 105 ∷ 108 ∷ 101 ∷ 95 ∷ 99 ∷ 111 ∷ 110 ∷ 116 ∷ 97 ∷ 105 ∷ 110 ∷ 115 ∷ 58 ∷ []

abbrev validate_file : List ℕ → List ℕ → Option GoalError
validate_file rest commands = elim (split_colon rest) [
  | none ↦ some blank_file
  | some (path, literal) ↦
      require (not (is_blank path || is_blank literal)) blank_file
      then_check require (is_empty commands) file_command
]

-- The `switch` on the oracle.
unfoldable pub validate_oracle : List ℕ → List ℕ → Option GoalError
validate_oracle oracle commands = elim (after_prefix output_contains oracle) [
  | some literal ↦
      require (not (is_blank literal)) blank_literal
      then_check require (not (is_empty commands)) no_command
  | none ↦ elim (after_prefix file_contains oracle) [
    | some rest ↦ validate_file rest commands
    | none ↦ some bad_oracle
  ]
]

-- The loop over the command indexes, from those seen so far.
unfoldable pub validate_commands : List ℕ → List ℕ → Option GoalError
validate_commands seen [] = none
validate_commands seen (i ∷ is) =
    require (not (i == 0)) command_range
    then_check require (not (contains i seen)) command_repeated
    then_check validate_commands (i ∷ seen) is

-- The loop over the checks of a contract with `n` criteria, from the indexes seen so far.
unfoldable pub validate_checks : ℕ → List ℕ → List AcceptanceCheck → Option GoalError
validate_checks n seen [] = none
validate_checks n seen (c ∷ cs) =
    require (not (c.criterion_index == 0 || ltb n c.criterion_index)) criterion_range
    then_check require (not (contains c.criterion_index seen)) criterion_repeated
    then_check require (not (is_blank c.scenario || is_blank c.oracle)) no_scenario
    then_check validate_oracle (trim_space c.oracle) c.command_indexes
    then_check validate_commands [] c.command_indexes
    then_check validate_checks n (c.criterion_index ∷ seen) cs

abbrev validate_acceptance : GoalContract → Option GoalError
validate_acceptance g =
    if is_empty g.acceptance_checks
    then none
    else (require (length g.acceptance_checks == length g.acceptance) checks_uncovered
        then_check validate_checks (length g.acceptance) [] g.acceptance_checks)

-- GoalContract.Validate
unfoldable pub validate_goal : GoalContract → Option GoalError
validate_goal g =
    require (not (is_blank g.goal)) no_goal
    then_check require (not (is_empty g.acceptance)) no_acceptance
    then_check require (not (any_blank g.acceptance)) blank_criterion
    then_check validate_acceptance g
    then_check require (not (is_blank g.project_id)) no_project
    then_check require (not (is_blank g.base_revision)) no_revision
    then_check require (not (is_blank g.verification_profile)) no_profile
    then_check require (not (is_blank g.priority)) no_priority
