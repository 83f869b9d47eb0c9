-- ===== src/Store/OneDispatch.antt =====
-- internal/store/effect.go: no side effect is dispatched twice without evidence in between.
use mar.Prelude.{
  ℕ, ◌+◌, ◌≤◌, ◌≡◌, refl, Bool, true, false, ◌&&◌, List, [], ◌∷◌, ◌==◌, if◌then◌else◌, arith,
  Option,
}
use mar.Sql.{count_where}
use mar.Domain.Task.{Project, Task, ExecutionAttempt}
use mar.Domain.Control.{TaskControl}
use mar.Domain.Effect.{EffectRecord, ObservationOutcome, is_not_applied}
use mar.Store.{Db, Result, ok, err}
use mar.Store.Effects.{prepare_effect, mark_effect_dispatched, observe_effect, rearm_not_applied}
use mar.Store.Tame.{On}
use mar.Store.History.{settle}
use mar.Store.Dispatches.{open_rows}
use mar.Store.EffectBounds.{
  once, mark_effect_dispatched-bound, observe_effect-bound, rearm_not_applied-bound,
  prepare_effect-bound,
}

-- The calls on effects, and `elsewhere`, any change of the other tables.
pub data EffectCall : Type 0 where
  prepares : (ℕ → Option ℕ) → EffectRecord → EffectCall
  dispatches : ℕ → ℕ → ℕ → ℕ → ℕ → EffectCall
  observes : ℕ → ObservationOutcome → ℕ → ℕ → EffectCall
  rearms : ℕ → ℕ → EffectCall
  elsewhere : List Project → List Task → List ExecutionAttempt → List TaskControl → EffectCall

abbrev pub is_ok {ℓ} : {A : Type ℓ} → Result A → Bool
is_ok (ok _) = true
is_ok (err _) = false

module _ (json_valid : ℕ → Bool) where
  unfoldable pub effect_step : Db → EffectCall → Db
  effect_step db (prepares encode r) = settle db (prepare_effect encode r db)
  effect_step db (dispatches o t a e now) = settle db (mark_effect_dispatched o t a e now db)
  effect_step db (observes o outcome result now) =
      settle db (observe_effect json_valid o outcome result now db)
  effect_step db (rearms o now) = settle db (rearm_not_applied o now db)
  effect_step db (elsewhere projects tasks attempts controls) = record db {
    projects = projects;
    tasks = tasks;
    attempts = attempts;
    controls = controls;
  }

  -- The call dispatches the operation, and succeeds.
  unfoldable pub is_dispatch : ℕ → Db → EffectCall → Bool
  is_dispatch operation db (dispatches o t a e now) =
      o == operation && is_ok (mark_effect_dispatched o t a e now db)
  is_dispatch operation db _ = false

  -- The call records that the operation was not applied, and succeeds.
  unfoldable pub is_denial : ℕ → Db → EffectCall → Bool
  is_denial operation db (observes o outcome result now) =
      o == operation
      && (is_not_applied outcome && is_ok (observe_effect json_valid o outcome result now db))
  is_denial operation db _ = false

  -- How often `test` holds of a call of the history, in the store at that point.
  unfoldable pub tally : (Db → EffectCall → Bool) → Db → List EffectCall → ℕ
  tally test db [] = 0
  tally test db (c ∷ cs) = once (test db c) + tally test (effect_step db c) cs

settle-bound {ℓ} :
    {A : Type ℓ} (operation : ℕ) (n m : ℕ) (db : Db) (r : Result (A × Db))
    → On (λ _ db'. n + open_rows operation db'.effects ≤ open_rows operation db.effects + m) r
    → (if is_ok r then n else 0) + open_rows operation (settle db r).effects
      ≤ open_rows operation db.effects + (if is_ok r then m else 0)
settle-bound operation n m db (ok (a, db')) h = h
settle-bound operation n m db (err e) h = omega arith

once-and : (b c : Bool) → once (b && c) ≡ (if c then once b else 0)
once-and b c = ground arith

and_assoc : (a b c : Bool) → (a && (b && c)) ≡ (a && b && c)
and_assoc a b c = ground arith

module _ (json_valid : ℕ → Bool) where
  effect_step-bound :
      (operation : ℕ) (db : Db) (c : EffectCall)
      → once (is_dispatch json_valid operation db c)
          + open_rows operation (effect_step json_valid db c).effects
        ≤ open_rows operation db.effects + once (is_denial json_valid operation db c)
  unfolding effect_step is_dispatch is_denial
  effect_step-bound operation db (prepares encode r) =
      let h =
        settle-bound operation 0 0 db (prepare_effect encode r db)
          (prepare_effect-bound operation encode r db) in
      ground arith
  effect_step-bound operation db (dispatches o t a e now) =
      let h =
        settle-bound operation (once (o == operation)) 0 db (mark_effect_dispatched o t a e now db)
          (mark_effect_dispatched-bound operation o t a e now db) in
      let both = once-and (o == operation) (is_ok (mark_effect_dispatched o t a e now db)) in
      ground arith
  effect_step-bound operation db (observes o outcome result now) =
      let r = observe_effect json_valid o outcome result now db in
      let h =
        settle-bound operation 0 (once (o == operation && is_not_applied outcome)) db r
          (observe_effect-bound operation o outcome result now json_valid db) in
      ground arith
  effect_step-bound operation db (rearms o now) =
      let h =
        settle-bound operation 0 0 db (rearm_not_applied o now db)
          (rearm_not_applied-bound operation o now db) in
      ground arith
  effect_step-bound operation db (elsewhere projects tasks attempts controls) = omega arith

  dispatches-bound :
      (operation : ℕ) (db : Db) (cs : List EffectCall)
      → tally json_valid (is_dispatch json_valid operation) db cs
        ≤ open_rows operation db.effects + tally json_valid (is_denial json_valid operation) db cs
  unfolding tally
  dispatches-bound operation db [] = omega arith
  dispatches-bound operation db (c ∷ cs) = omega (
    arith,
    effect_step-bound operation db c,
    dispatches-bound operation (effect_step json_valid db c) cs,
  )

  -- In any history that begins without effects, one operation is dispatched at most once more
  -- often than it is recorded as NOT_APPLIED.
  pub dispatched_once :
      (operation : ℕ) (db : Db) (cs : List EffectCall)
      → db.effects ≡ []
      → tally json_valid (is_dispatch json_valid operation) db cs
        ≤ 1 + tally json_valid (is_denial json_valid operation) db cs
  unfolding count_where
  dispatched_once operation db cs none_yet =
      let h = dispatches-bound operation db cs in
      let one : open_rows operation db.effects ≡ 1 = rw none_yet refl in omega (arith, h, one)
