-- ===== src/Store/EffectTests.antt =====
-- internal/store/effect.go: a history of one effect, and the theorem at that history.
use mar.Prelude.{◌+◌, ◌≤◌, ◌≡◌, refl, List, [], ◌∷◌, none, some}
use mar.Sql.{find_where, count_where, update_where}
use mar.Domain.Effect.{EffectRecord, process, prepared, unobserved, not_applied}
use mar.Store.{validate_attempt_authority_tx}
use mar.Store.Effects.{
  prepare_effect, prepare_encoded, mark_effect_dispatched, observe_effect, rearm_not_applied,
  get_effect,
}
use mar.Store.OneDispatch.{
  EffectCall, prepares, dispatches, observes, rearms, tally, is_dispatch, is_denial,
  dispatched_once, effect_step,
}
use mar.Store.Tests.{busy, json_valid}

abbrev launch : EffectRecord
launch = record {
  intent = record {
    operation_id = 30;
    task_id = 5;
    attempt_id = 9;
    run_epoch = 1;
    type = process;
    expected_precondition = 0;
    payload = 0;
  };
  intent_hash = 300;
  state = prepared;
  observation_outcome = unobserved;
  observed_result = 0;
  reconciliation_count = 0;
  created_at = 3;
  updated_at = 3;
  dispatched_at = none;
  observed_at = none;
}

-- The second dispatch is refused; after the observation and the rearming one more succeeds.
abbrev history : List EffectCall
history =
    prepares some launch
    ∷ dispatches 30 5 9 1 4
    ∷ dispatches 30 5 9 1 5
    ∷ observes 30 not_applied 0 6
    ∷ rearms 30 7
    ∷ dispatches 30 5 9 1 8
    ∷ []

two_dispatches : tally json_valid (is_dispatch json_valid 30) busy history ≡ 2
unfolding tally is_dispatch effect_step prepare_effect prepare_encoded mark_effect_dispatched
    observe_effect rearm_not_applied get_effect find_where count_where update_where
    validate_attempt_authority_tx
two_dispatches = refl

dispatched_once_example :
    tally json_valid (is_dispatch json_valid 30) busy history
    ≤ 1 + tally json_valid (is_denial json_valid 30) busy history
dispatched_once_example = dispatched_once json_valid 30 busy history refl
