-- ===== src/Effects/Tests.antt =====
-- internal/effects/manager.go: the theorems at a concrete plan.
use mar.Prelude.{◌==◌, if◌then◌else◌, ℕ, ◌≡◌, refl, [], ◌∷◌, Option, some}
use mar.Sql.{find_where}
use mar.Domain.Effect.{EffectIntent, EffectRecord, process, validate_intent}
use mar.Store.{Db, validate_attempt_authority_tx}
use mar.Store.Effects.{prepare_effect, prepare_encoded, as_stored}
use mar.Store.Tests.{busy, json_valid}
use mar.Effects.{answer, dispatch, plan, planned, classify}

abbrev launch : EffectIntent
launch = record {
  operation_id = 30;
  task_id = 5;
  attempt_id = 9;
  run_epoch = 1;
  type = process;
  expected_precondition = 0;
  payload = 0;
}

abbrev hash : EffectIntent → Option ℕ
hash i = some (i.operation_id)

-- "null" is 9.
abbrev encode : ℕ → Option ℕ
encode n = if n == 0 then some 9 else some n

-- The row, with the payload as it is encoded.
abbrev launched_row : EffectRecord
launched_row = as_stored (planned launch 30 4) 9

abbrev launched : Db
launched = record busy { effects = launched_row ∷ [] }

second_plan :
    plan hash json_valid encode launch 8 launched ≡ (answer launched_row dispatch, launched)
unfolding plan prepare_effect prepare_encoded find_where validate_attempt_authority_tx
    validate_intent classify
second_plan = refl
