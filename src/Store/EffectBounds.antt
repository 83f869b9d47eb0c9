-- ===== src/Store/EffectBounds.antt =====
-- internal/store/effect.go: how each call changes the number of open rows.
use mar.Prelude.{
  Option, ℕ, ◌+◌, ◌≤◌, ◌≡◌, refl, subst, Bool, true, false, ◌&&◌, not, List, [], ◌∷◌, none, some,
  ◌==◌, arith, inl, inr, Bool-cases, Option-cases, any,
}
use mar.Sql.{find_where, count_where, update_where}
use mar.Domain.Effect.{EffectRecord, ObservationOutcome, is_prepared, is_not_applied, is_outcome}
use mar.Store.{Db, Result, ok, err, validate_attempt_authority_tx}
use mar.Store.Effects.{
  by_operation, effect_row, get_effect, prepare_effect, prepare_encoded, no_row_yet, move_effect,
  is_dispatchable, dispatch, mark_effect_dispatched, is_observable, observe, observe_effect,
  is_rearmable, rearm, rearm_not_applied, intent_authority,
}
use mar.Store.Tame.{On, On-if}
use mar.Store.Dispatches.{is_open, open_rows, any-update_where, closed_rows, opened_rows, kept_rows}

abbrev pub once : Bool → ℕ
once true = 1
once false = 0

move_effect-moves :
    (operation : ℕ) (hit : EffectRecord → Bool) (change : EffectRecord → EffectRecord) (db : Db)
    → On
        (λ _ db'.
          (db'.effects ≡ update_where hit change db.effects) × (count_where hit db.effects ≡ 1))
        (move_effect operation hit change db)
unfolding get_effect
move_effect-moves operation hit change db = elim (Bool-cases (count_where hit db.effects == 1)) [
  | inr n ↦ rw n tt
  | inl y ↦
      elim (Option-cases
        (effect_row operation (record db { effects = update_where hit change db.effects }))) [
          | inl e ↦ rw (y, e, On) tt
          | inr (r, e) ↦ rw (y, e, On) (refl, ground arith)
        ]
]

move_effect-bound :
    (operation o n m : ℕ) (hit : EffectRecord → Bool) (change : EffectRecord → EffectRecord)
    (db : Db)
    → ((r : EffectRecord) → (change r).intent ≡ r.intent)
    → (count_where hit db.effects ≡ 1
        → n + count_where (is_open operation) (update_where hit change db.effects)
          ≤ count_where (is_open operation) db.effects + m)
    → On
        (λ _ db'. n + open_rows operation db'.effects ≤ open_rows operation db.effects + m)
        (move_effect o hit change db)
move_effect-bound operation o n m hit change db same bound =
    go _ (move_effect-moves o hit change db)
  where
    go :
        (r : Result (EffectRecord × Db))
        → On
            (λ _ db'.
              (db'.effects ≡ update_where hit change db.effects) × (count_where hit db.effects ≡ 1))
            r
        → On (λ _ db'. n + open_rows operation db'.effects ≤ open_rows operation db.effects + m) r
    go (err e) h = tt
    go (ok (r, db')) h =
        let still = any-update_where operation hit change db.effects same in
        let fits = bound (h.1) in rw (h.0) (ground arith)

pub mark_effect_dispatched-bound :
    (operation o t a e now : ℕ) (db : Db)
    → On
        (λ _ db'.
          once (o == operation) + open_rows operation db'.effects
          ≤ open_rows operation db.effects + 0)
        (mark_effect_dispatched o t a e now db)
unfolding mark_effect_dispatched
mark_effect_dispatched-bound operation o t a e now db =
    elim (Option-cases (validate_attempt_authority_tx t a e db)) [
      | inr (x, v) ↦ rw (v, On) tt
      | inl v ↦
          rw (v, On)
            (move_effect-bound operation o (once (o == operation)) 0 (is_dispatchable o t a e)
              (dispatch now) db (λ r. refl)
              λ one. elim (Bool-cases (o == operation)) [
                | inl y ↦
                    let closes =
                      closed_rows operation (is_dispatchable o t a e) (dispatch now) db.effects
                        (λ r h. ground arith) (λ r. ground arith) in
                    rw y (omega (arith, closes, one))
                | inr n ↦
                    let keeps =
                      kept_rows operation (is_dispatchable o t a e) (dispatch now) db.effects
                        (λ r p q. ground arith) in
                    rw n (omega (arith, keeps))
              ])
    ]

pub observe_effect-bound :
    (operation o : ℕ) (outcome : ObservationOutcome) (result now : ℕ) (json_valid : ℕ → Bool)
    (db : Db)
    → On
        (λ _ db'.
          0 + open_rows operation db'.effects
          ≤ open_rows operation db.effects + once (o == operation && is_not_applied outcome))
        (observe_effect json_valid o outcome result now db)
unfolding observe_effect
observe_effect-bound operation o outcome result now json_valid db =
    let P = λ (_ : EffectRecord) (db' : Db).
      0 + open_rows operation db'.effects
      ≤ open_rows operation db.effects + once (o == operation && is_not_applied outcome) in
    On-if P (not (is_outcome outcome)) _ _ (λ _. tt)
      λ _.
        On-if P (not (result == 0) && not (json_valid result)) _ _ (λ _. tt)
          λ _.
            move_effect-bound operation o 0 (once (o == operation && is_not_applied outcome))
              (is_observable o) (observe outcome result now) db (λ r. refl)
              λ one. elim (Bool-cases (o == operation && is_not_applied outcome)) [
                | inl y ↦ rw y (
                    omega (
                      arith,
                      one,
                      opened_rows operation (is_observable o) (observe outcome result now)
                          db.effects,
                    ))
                | inr n ↦ rw n (
                    omega (
                      arith,
                      kept_rows operation (is_observable o) (observe outcome result now) db.effects
                          (λ r p q. ground arith),
                    ))
              ]

pub rearm_not_applied-bound :
    (operation o now : ℕ) (db : Db)
    → On
        (λ _ db'. 0 + open_rows operation db'.effects ≤ open_rows operation db.effects + 0)
        (rearm_not_applied o now db)
unfolding rearm_not_applied
rearm_not_applied-bound operation o now db =
    move_effect-bound operation o 0 0 (is_rearmable o) (rearm now) db (λ r. refl)
      λ one.
        omega (
          arith,
          kept_rows operation (is_rearmable o) (rearm now) db.effects (λ r p q. ground arith),
        )

missing_row :
    (operation : ℕ) (xs : List EffectRecord)
    → find_where (by_operation operation) xs ≡ none
    → any (by_operation operation) xs ≡ false
unfolding find_where
missing_row operation [] e = refl
missing_row operation (x ∷ xs) e = ground (arith, missing_row operation xs)

added_row :
    (operation payload : ℕ) (r : EffectRecord) (xs : List EffectRecord)
    → find_where (by_operation r.intent.operation_id) xs ≡ none
    → 0 + open_rows operation (no_row_yet r payload ∷ xs) ≤ open_rows operation xs + 0
unfolding count_where
added_row operation payload r xs e = elim (Bool-cases (r.intent.operation_id == operation)) [
  | inl y ↦
      let missing = missing_row r.intent.operation_id xs e in
      let same : r.intent.operation_id ≡ operation = ground arith in
      let none_of : any (by_operation operation) xs ≡ false =
        subst (λ o. any (by_operation o) xs ≡ false) same missing in
      ground arith
  | inr n ↦ ground arith
]

prepare_encoded-bound :
    (operation payload : ℕ) (r : EffectRecord) (db : Db)
    → On
        (λ _ db'. 0 + open_rows operation db'.effects ≤ open_rows operation db.effects + 0)
        (prepare_encoded payload r db)
unfolding prepare_encoded
prepare_encoded-bound operation payload r db =
    elim (Option-cases (effect_row r.intent.operation_id db)) [
      | inr (x, e) ↦
          rw (e, On, prepare_encoded)
            (let P = λ (_ : EffectRecord × Bool) (db' : Db).
                0 + open_rows operation db'.effects ≤ open_rows operation db.effects + 0 in
              On-if P (not (x.intent_hash == r.intent_hash)) _ _ (λ _. tt)
                λ _. On-if P (is_prepared x.state) _ _ (λ _. checked x) λ _. omega arith)
      | inl e ↦ elim (Option-cases (intent_authority r db)) [
        | inr (x, v) ↦ rw (e, v, On, prepare_encoded) tt
        | inl v ↦ rw (e, v, On, prepare_encoded) (added_row operation payload r db.effects e)
      ]
    ]
  where
    checked :
        (x : EffectRecord)
        → On
            (λ (_ : EffectRecord × Bool) db'.
              0 + open_rows operation db'.effects ≤ open_rows operation db.effects + 0)
            (elim (intent_authority r db) [ some e ↦ err e | none ↦ ok ((x, false), db) ])
    checked x = elim (Option-cases (intent_authority r db)) [
      | inl v ↦ rw (v, On) (omega arith)
      | inr (y, v) ↦ rw (v, On) tt
    ]

pub prepare_effect-bound :
    (operation : ℕ) (encode : ℕ → Option ℕ) (r : EffectRecord) (db : Db)
    → On
        (λ _ db'. 0 + open_rows operation db'.effects ≤ open_rows operation db.effects + 0)
        (prepare_effect encode r db)
unfolding prepare_effect
prepare_effect-bound operation encode r db = elim (Option-cases (encode r.intent.payload)) [
  | inl e ↦ rw (e, On) tt
  | inr (payload, e) ↦ rw (e, On) (prepare_encoded-bound operation payload r db)
]
