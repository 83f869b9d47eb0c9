-- ===== src/Store/Effects.antt =====
-- internal/store/effect.go: the life of one side effect. A row holds its intent as JSON, which keeps
-- every field but the payload: `encode` is what json.Marshal makes of the payload's bytes, `null` of
-- none, and `none` where the payload is no JSON; json.Unmarshal gives these bytes back.
use mar.Prelude.{ℕ, ◌+◌, Bool, true, false, ◌&&◌, not, ◌∷◌, Option, none, some, ◌==◌, if◌then◌else◌}
use mar.Sql.{find_where, count_where, update_where}
use mar.Domain.Effect.{
  EffectRecord, ObservationOutcome, prepared, dispatched, observed, unobserved, is_prepared,
  is_dispatched, is_observed, is_not_applied, is_outcome,
}
use mar.Store.{
  Db, Error, Result, ok, err, Tx, not_found, effect_intent_conflict, effect_state_conflict,
  bad_outcome, bad_json, validate_attempt_authority_tx,
}

-- WHERE operation_id = ?
abbrev pub by_operation : ℕ → EffectRecord → Bool
by_operation operation r = r.intent.operation_id == operation

abbrev pub effect_row : ℕ → Db → Option EffectRecord
effect_row operation db = find_where (by_operation operation) db.effects

-- GetEffect
unfoldable pub get_effect : ℕ → Db → Result EffectRecord
get_effect operation db = elim (effect_row operation db) [ none ↦ err not_found | some r ↦ ok r ]

abbrev pub intent_authority : EffectRecord → Db → Option Error
intent_authority r =
    validate_attempt_authority_tx r.intent.task_id r.intent.attempt_id r.intent.run_epoch

-- The record that is read of the row of `r`, where its payload was encoded as `payload`.
abbrev pub as_stored : EffectRecord → ℕ → EffectRecord
as_stored r payload = record r { intent = record r.intent { payload = payload } }

abbrev pub no_row_yet : EffectRecord → ℕ → EffectRecord
no_row_yet r payload = record (as_stored r payload) {
  state = prepared;
  observation_outcome = unobserved;
  observed_result = 0;
  reconciliation_count = 0;
  dispatched_at = none;
  observed_at = none;
}

-- The transaction of PrepareEffect, with the encoded payload.
unfoldable pub prepare_encoded : ℕ → EffectRecord → Tx (EffectRecord × Bool)
prepare_encoded payload r db = elim (effect_row r.intent.operation_id db) [
  | some existing ↦
      if not (existing.intent_hash == r.intent_hash)
      then err effect_intent_conflict
      else if is_prepared existing.state
      then elim (intent_authority r db) [ some e ↦ err e | none ↦ ok ((existing, false), db) ]
      else ok ((existing, false), db)
  | none ↦ elim (intent_authority r db) [
    | some e ↦ err e
    | none ↦ ok (
      (record r { state = prepared }, true),
      record db { effects = no_row_yet r payload ∷ db.effects },
    )
  ]
]

-- PrepareEffect; the result tells whether the row is new. The stored columns are those of the
-- INSERT, the others take their defaults; the answer for a new row is the record that was given.
unfoldable pub prepare_effect : (ℕ → Option ℕ) → EffectRecord → Tx (EffectRecord × Bool)
prepare_effect encode r db = elim (encode r.intent.payload) [
  | none ↦ err bad_json
  | some payload ↦ prepare_encoded payload r db
]

-- UPDATE effect_intents … WHERE `hit`, and then the row is read again.
abbrev pub move_effect : ℕ → (EffectRecord → Bool) → (EffectRecord → EffectRecord) → Tx EffectRecord
move_effect operation hit change db =
    let db' = record db { effects = update_where hit change db.effects } in
    if count_where hit db.effects == 1
    then elim (get_effect operation db') [ err e ↦ err e | ok r ↦ ok (r, db') ]
    else err effect_state_conflict

abbrev pub is_dispatchable : ℕ → ℕ → ℕ → ℕ → EffectRecord → Bool
is_dispatchable operation task attempt epoch r =
    by_operation operation r
    && (r.intent.task_id == task
        && (r.intent.attempt_id == attempt && (r.intent.run_epoch == epoch && is_prepared r.state)))

abbrev pub dispatch : ℕ → EffectRecord → EffectRecord
dispatch now r = record r { state = dispatched; dispatched_at = some now; updated_at = now }

-- MarkEffectDispatched
unfoldable pub mark_effect_dispatched : ℕ → ℕ → ℕ → ℕ → ℕ → Tx EffectRecord
mark_effect_dispatched operation task attempt epoch now db =
    elim (validate_attempt_authority_tx task attempt epoch db) [
      | some e ↦ err e
      | none ↦
          move_effect operation (is_dispatchable operation task attempt epoch) (dispatch now) db
    ]

abbrev pub is_observable : ℕ → EffectRecord → Bool
is_observable operation r = by_operation operation r && is_dispatched r.state

abbrev pub observe : ObservationOutcome → ℕ → ℕ → EffectRecord → EffectRecord
observe outcome result now r = record r {
  state = observed;
  observation_outcome = outcome;
  observed_result = result;
  updated_at = now;
  observed_at = some now;
}

-- ObserveEffect; `json_valid` is the standard library's json.Valid.
unfoldable pub observe_effect : (ℕ → Bool) → ℕ → ObservationOutcome → ℕ → ℕ → Tx EffectRecord
observe_effect json_valid operation outcome result now db =
    if not (is_outcome outcome)
    then err bad_outcome
    else if not (result == 0) && not (json_valid result)
    then err bad_json
    else move_effect operation (is_observable operation) (observe outcome result now) db

abbrev pub is_rearmable : ℕ → EffectRecord → Bool
is_rearmable operation r =
    by_operation operation r && (is_observed r.state && is_not_applied r.observation_outcome)

abbrev pub rearm : ℕ → EffectRecord → EffectRecord
rearm now r = record r {
  state = prepared;
  observation_outcome = unobserved;
  observed_result = 0;
  reconciliation_count = r.reconciliation_count + 1;
  updated_at = now;
  dispatched_at = none;
  observed_at = none;
}

-- RearmNotApplied
unfoldable pub rearm_not_applied : ℕ → ℕ → Tx EffectRecord
rearm_not_applied operation now db = move_effect operation (is_rearmable operation) (rearm now) db
