-- ===== src/Effects.antt =====
-- internal/effects/manager.go: what an attempt may do about a side effect that it intends.
-- The hash of an intent, SHA-256 over canonical JSON, json.Valid, and the encoding of a payload are
-- parameters.
pub mod Plans
mod Tests
use mar.Prelude.{
  ℕ, ◌+◌, ◌≡◌, refl, sym, subst, ◌∙◌, Bool, true, false, ◌&&◌, ◌||◌, not, List, [], ◌∷◌, Option,
  none, some, ◌==◌, if◌then◌else◌, arith, inl, inr, Bool-cases, Option-cases, ==_refl,
}
use mar.Sql.{find_where}
use mar.Domain.Effect.{
  EffectIntent, EffectRecord, EffectState, ObservationOutcome, IntentError, validate_intent,
  prepared, dispatched, observed, unobserved, applied, not_applied, is_prepared,
}
use mar.Store.{Db, Error, Result, Result-cases, ok, err, Tx, validate_attempt_authority_tx}
use mar.Store.Effects.{
  by_operation, effect_row, prepare_effect, no_row_yet, intent_authority, mark_effect_dispatched,
  observe_effect, rearm_not_applied,
}

pub data Decision : Type 0 where
  dispatch reconcile already_applied observed_not_applied : Decision

-- What a plan answers: the record and the decision (with ErrEffectReconcile where it is
-- `reconcile`), or an error.
pub data Plan : Type 0 where
  answer : EffectRecord → Decision → Plan
  bad_intent : IntentError → Plan
  bad_hash bad_record : Plan
  refused : Error → Plan

unfoldable pub classify : EffectRecord → Plan
classify r = elim (r.state) [
  | prepared ↦ answer r dispatch
  | dispatched ↦ answer r reconcile
  | observed ↦ elim (r.observation_outcome) [
    | applied ↦ answer r already_applied
    | not_applied ↦ answer r observed_not_applied
    | unobserved ↦ bad_record
  ]
]

-- The record that a plan prepares.
abbrev pub planned : EffectIntent → ℕ → ℕ → EffectRecord
planned intent hash now = record {
  intent = intent;
  intent_hash = hash;
  state = prepared;
  observation_outcome = unobserved;
  observed_result = 0;
  reconciliation_count = 0;
  created_at = now;
  updated_at = now;
  dispatched_at = none;
  observed_at = none;
}

abbrev pub prepared_plan : (ℕ → Option ℕ) → EffectRecord → Db → Plan × Db
prepared_plan encode r db = elim (prepare_effect encode r db) [
  | err e ↦ (refused e, db)
  | ok ((existing, _), db') ↦ (classify existing, db')
]

module _ (hash : EffectIntent → Option ℕ) (json_valid : ℕ → Bool) (encode : ℕ → Option ℕ) where
  -- Manager.Plan
  unfoldable pub plan : EffectIntent → ℕ → Db → Plan × Db
  plan intent now db = elim (validate_intent json_valid intent) [
    | some e ↦ (bad_intent e, db)
    | none ↦ elim (hash intent) [
      | none ↦ (bad_hash, db)
      | some h ↦ prepared_plan encode (planned intent h now) db
    ]
  ]

module _ (json_valid : ℕ → Bool) where
  -- Manager.ObserveApplied and Manager.ObserveNotApplied
  unfoldable pub observe_applied : ℕ → ℕ → ℕ → Tx EffectRecord
  observe_applied operation result now = observe_effect json_valid operation applied result now

  unfoldable pub observe_not_applied : ℕ → ℕ → ℕ → Tx EffectRecord
  observe_not_applied operation result now =
      observe_effect json_valid operation not_applied result now

-- Manager.AuthorizeDispatch
unfoldable pub authorize_dispatch : ℕ → ℕ → ℕ → ℕ → ℕ → Tx EffectRecord
authorize_dispatch operation task attempt epoch now =
    mark_effect_dispatched operation task attempt epoch now

-- Manager.RearmAfterNotApplied
unfoldable pub rearm_after_not_applied : ℕ → ℕ → Tx EffectRecord
rearm_after_not_applied operation now = rearm_not_applied operation now
