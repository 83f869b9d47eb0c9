-- ===== src/Domain/Effect.antt =====
-- internal/domain/effect.go: side effects that an attempt intends, and their record.
-- A text is a number, and every blank text is 0; a JSON text of length 0 is 0 as well.
use mar.Prelude.{ℕ, Bool, true, false, ◌&&◌, ◌||◌, not, Option, none, some, ◌==◌, if◌then◌else◌}

pub data EffectType : Type 0 where
  local_observable process integration external unlisted : EffectType

abbrev is_listed : EffectType → Bool
is_listed unlisted = false
is_listed _ = true

pub data EffectState : Type 0 where
  prepared dispatched observed : EffectState

-- `unobserved` is the empty outcome of an effect that is not observed.
pub data ObservationOutcome : Type 0 where
  unobserved applied not_applied : ObservationOutcome

abbrev pub is_prepared : EffectState → Bool
is_prepared prepared = true
is_prepared _ = false

abbrev pub is_dispatched : EffectState → Bool
is_dispatched dispatched = true
is_dispatched _ = false

abbrev pub is_observed : EffectState → Bool
is_observed observed = true
is_observed _ = false

abbrev pub is_not_applied : ObservationOutcome → Bool
is_not_applied not_applied = true
is_not_applied _ = false

abbrev pub is_outcome : ObservationOutcome → Bool
is_outcome unobserved = false
is_outcome _ = true

pub record EffectIntent : Type 0 where
  pub operation_id : ℕ
  pub task_id : ℕ
  pub attempt_id : ℕ
  pub run_epoch : ℕ
  pub type : EffectType
  pub expected_precondition : ℕ
  pub payload : ℕ

pub record EffectRecord : Type 0 where
  pub intent : EffectIntent
  pub intent_hash : ℕ
  pub state : EffectState
  pub observation_outcome : ObservationOutcome
  pub observed_result : ℕ
  pub reconciliation_count : ℕ
  pub created_at : ℕ
  pub updated_at : ℕ
  pub dispatched_at : Option ℕ
  pub observed_at : Option ℕ

pub data IntentError : Type 0 where
  no_identity no_epoch bad_type bad_payload : IntentError

-- EffectIntent.Validate; `json_valid` is the standard library's json.Valid.
unfoldable pub validate_intent : (ℕ → Bool) → EffectIntent → Option IntentError
validate_intent json_valid i =
    if i.operation_id == 0 || i.task_id == 0 || i.attempt_id == 0
    then some no_identity
    else if i.run_epoch == 0
    then some no_epoch
    else if not (is_listed i.type)
    then some bad_type
    else if not (i.payload == 0) && not (json_valid i.payload)
    then some bad_payload
    else none
