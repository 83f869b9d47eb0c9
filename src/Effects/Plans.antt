-- ===== src/Effects/Plans.antt =====
-- internal/effects/manager.go: what the answer of a plan means, and that planning twice is once.
use mar.Prelude.{ℕ, ◌≡◌, true, Option, none, some, ◌⊎◌}
use mar.Domain.Effect.{EffectIntent, EffectRecord, is_prepared}
use mar.Store.{Db, validate_attempt_authority_tx}
use mar.Store.Effects.{effect_row, as_stored}

-- What the store holds of the operation once it is prepared, where a plan goes on with `r`: the same
-- record, whose payload is encoded if the row is new.
record Planned (encode : ℕ → Option ℕ) (intent : EffectIntent) (hash : ℕ) (r : EffectRecord)
    (db : Db) : Type 0 where
  payload : ℕ
  encoded : (encode intent.payload ≡ some payload) ⊎ (payload ≡ r.intent.payload)
  stored : effect_row intent.operation_id db ≡ some (as_stored r payload)
  same_hash : r.intent_hash ≡ hash
  authority :
      is_prepared r.state ≡ true
      → validate_attempt_authority_tx intent.task_id intent.attempt_id intent.run_epoch db ≡ none
