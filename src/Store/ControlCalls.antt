-- ===== src/Store/ControlCalls.antt =====
-- internal/store/control.go and effect.go: controls, cancellations and effects give no attempt more
-- authority.
use mar.Prelude.{
  ℕ, ◌+◌, ◌≡◌, refl, Bool, true, false, ◌&&◌, ◌||◌, not, List, [], ◌∷◌, Option, none, some, ◌==◌,
  arith, inl, inr, Option-cases, any, contains,
}
use mar.Sql.{find_where, count_where, update_where}
use mar.Domain.Task.{Task, TaskState, state_eq, running, cancelled, input_required}
use mar.Domain.Control.{TaskControl, ControlKind, input, cancel}
use mar.Domain.Effect.{EffectRecord, ObservationOutcome, is_outcome}
use mar.Store.{
  by_project, Db, ok, err, Tx, by_id, live_attempts, ◌>>◌, done, get_task_row,
  validate_attempt_authority_tx, effect_state_conflict, bad_outcome, bad_json, constraint_failed,
  state_conflict, stale_attempt, physical_fence_required, Result-cases,
}
use mar.Store.Tasks.{submit_task, collides}
use mar.Store.Controls.{
  publish_task_control, publish_task_input, insert_task_control_tx, answer_or, max_version,
  control_collides, fresh_control, fresh_input, resume, current_active, existing_task_control,
  task_control_state, contains_task_state, then_keep,
}
use mar.Store.Cancellation.{
  request_task_cancellation, finalize_task_cancellation, revoke, cancel_task, is_past_cancelling,
  is_unstarted, is_cancel_of, fresh_cancellation, is_current_running,
}
use mar.Store.Effects.{
  prepare_effect, prepare_encoded, mark_effect_dispatched, observe_effect, no_row_yet,
  rearm_not_applied, move_effect, get_effect,
}
use mar.Store.Tame.{task_ids, epoch_of, Tame, Tame-refl, Leads, Leads-if, Leads->>=, Demoted-refl}
use mar.Store.Calls.{move_state-Tame, fence_where-Tame}

-- The calls that answer an existing control, or run `fresh`.
answer_or-Tame :
    (digest : TaskControl → Option ℕ) (task key : ℕ) (kind : ControlKind) (payload : ℕ)
    (fresh : TaskState × ℕ → Tx TaskControl) (db : Db)
    → ((s : TaskState × ℕ) → Leads (Tame db) (fresh s db))
    → Leads (Tame db) (answer_or digest task key kind payload fresh db)
answer_or-Tame digest task key kind payload fresh db h =
    elim (Result-cases (existing_task_control digest task key kind payload db)) [
      | inl (e, x) ↦ rw (x, Leads) tt
      | inr (some c, x) ↦ rw (x, Leads) (Tame-refl db)
      | inr (none, x) ↦
          rw (x, Leads)
            (elim (Result-cases (task_control_state task db)) [
              | inl (e, y) ↦ rw (y, Leads) tt
              | inr (s, y) ↦
                  rw (y, Leads)
                    (Leads->>= (fresh s) (λ c db'. ok ((c, true), db')) db (h s)
                      (λ c db'. Tame-refl db'))
            ])
    ]

controls-Tame : (db : Db) (cs : List TaskControl) → Tame db (record db { controls = cs })
controls-Tame db cs = record {
  epochs = λ id. refl;
  keys = λ d. d;
  attempts = Demoted-refl db.attempts;
}

insert_task_control_tx-Tame :
    (digest : TaskControl → Option ℕ) (control task key : ℕ) (kind : ControlKind) (payload now : ℕ)
    (db : Db)
    → Leads (Tame db) (insert_task_control_tx digest control task key kind payload now db)
unfolding insert_task_control_tx
insert_task_control_tx-Tame digest control task key kind payload now db =
    let draft : TaskControl = record {
      id = control;
      task_id = task;
      version = max_version task db.controls + 1;
      idempotency_key = key;
      kind = kind;
      payload = payload;
      integrity_hash = 0;
      created_at = now;
    } in
    elim (Option-cases (digest draft)) [
      | inl e ↦ rw (e, Leads, insert_task_control_tx) tt
      | inr (h, e) ↦
          rw (e, Leads, insert_task_control_tx)
            (Leads-if (Tame db) (any (control_collides draft) db.controls) _ _ (λ _. tt)
              (λ _. controls-Tame db _))
    ]

pub publish_task_control-Tame :
    (digest : TaskControl → Option ℕ) (control task key : ℕ) (kind : ControlKind) (payload : ℕ)
    (allowed : List TaskState) (now : ℕ) (db : Db)
    → Leads (Tame db) (publish_task_control digest control task key kind payload allowed now db)
unfolding publish_task_control
publish_task_control-Tame digest control task key kind payload allowed now db =
    answer_or-Tame digest task key kind payload
      (fresh_control digest control task key kind payload allowed now) db
      λ s.
        Leads-if (Tame db) (contains_task_state allowed s.0)
          (insert_task_control_tx digest control task key kind payload now db) (err state_conflict)
          (λ _. insert_task_control_tx-Tame digest control task key kind payload now db) (λ _. tt)

then_keep-Tame :
    (m : Tx TaskControl) (k : Tx (Unit {0})) (db : Db)
    → Leads (Tame db) (m db)
    → ((db' : Db) → Leads (Tame db') (k db'))
    → Leads (Tame db) (then_keep m k db)
then_keep-Tame m k db h g =
    Leads->>= m (λ c. k >> λ d. ok (c, d)) db h
      λ c db'. Leads->>= k (λ _ d. ok (c, d)) db' (g db') (λ _ d. Tame-refl d)

pub publish_task_input-Tame :
    (digest : TaskControl → Option ℕ) (control task key payload now : ℕ) (db : Db)
    → Leads (Tame db) (publish_task_input digest control task key payload now db)
unfolding publish_task_input
publish_task_input-Tame digest control task key payload now db =
    answer_or-Tame digest task key input payload (fresh_input digest control task key payload now)
      db
      λ s.
        Leads-if (Tame db) (not (state_eq s.0 input_required) || s.1 == 0) (err state_conflict) _
          (λ _. tt)
          λ _.
            Leads-if (Tame db) (not (current_active task s.1 db.attempts == 1)) (err stale_attempt)
              _ (λ _. tt)
              λ _.
                then_keep-Tame (insert_task_control_tx digest control task key input payload now)
                  (resume task s.1 now) db
                  (insert_task_control_tx-Tame digest control task key input payload now db)
                  (λ db'. move_state-Tame _ running now state_conflict db')

cancel_task-Tame :
    (task : ℕ) (state : TaskState) (now : ℕ) (db : Db)
    → Leads (Tame db) (cancel_task task state now db)
cancel_task-Tame task state now db = move_state-Tame _ cancelled now state_conflict db

revoke-Tame :
    (task : ℕ) (s : TaskState × ℕ) (now : ℕ) (db : Db) → Leads (Tame db) (revoke task s now db)
unfolding revoke
revoke-Tame task (state, epoch) now db =
    Leads-if (Tame db) (is_unstarted state) _ _ (λ _. cancel_task-Tame task state now db)
      λ _.
        Leads-if (Tame db) (not (count_where (is_current_running task epoch) db.attempts == 0)) _ _
          (λ _. fence_where-Tame (is_current_running task epoch) now db (λ x k. ground arith))
          λ _.
            Leads-if (Tame db) (live_attempts task db.attempts == 0) _ _
              (λ _. cancel_task-Tame task state now db) (λ _. Tame-refl db)

pub request_task_cancellation-Tame :
    (digest : TaskControl → Option ℕ) (control task key payload now : ℕ) (db : Db)
    → Leads (Tame db) (request_task_cancellation digest control task key payload now db)
unfolding request_task_cancellation
request_task_cancellation-Tame digest control task key payload now db =
    answer_or-Tame digest task key cancel payload
      (fresh_cancellation digest control task key payload now) db
      λ s.
        Leads-if (Tame db) (is_past_cancelling s.0) (err state_conflict) _ (λ _. tt)
          λ _.
            then_keep-Tame (insert_task_control_tx digest control task key cancel payload now)
              (revoke task s now) db
              (insert_task_control_tx-Tame digest control task key cancel payload now db)
              (λ db'. revoke-Tame task s now db')

pub finalize_task_cancellation-Tame :
    (task now : ℕ) (db : Db) → Leads (Tame db) (finalize_task_cancellation task now db)
unfolding finalize_task_cancellation
finalize_task_cancellation-Tame task now db = elim (Option-cases (get_task_row task db)) [
  | inl e ↦ rw (e, Leads, finalize_task_cancellation) tt
  | inr (t, e) ↦
      rw (e, Leads, finalize_task_cancellation)
        (Leads-if (Tame db) (state_eq t.state cancelled) (done db) _ (λ _. Tame-refl db)
          λ _.
            Leads-if (Tame db) (count_where (is_cancel_of task) db.controls == 0)
              (err state_conflict) _ (λ _. tt)
              λ _.
                Leads-if (Tame db) (not (live_attempts task db.attempts == 0))
                  (err physical_fence_required) _ (λ _. tt)
                  (λ _. cancel_task-Tame task t.state now db))
]

effects-Tame : (db : Db) (es : List EffectRecord) → Tame db (record db { effects = es })
effects-Tame db es = record {
  epochs = λ id. refl;
  keys = λ d. d;
  attempts = Demoted-refl db.attempts;
}

move_effect-Tame :
    (operation : ℕ) (hit : EffectRecord → Bool) (change : EffectRecord → EffectRecord) (db : Db)
    → Leads (Tame db) (move_effect operation hit change db)
move_effect-Tame operation hit change db =
    let db' = record db { effects = update_where hit change db.effects } in
    Leads-if (Tame db) (count_where hit db.effects == 1) _ (err effect_state_conflict)
      (λ _. elim (Result-cases (get_effect operation db')) [
        | inl (e, x) ↦ rw (x, Leads) tt
        | inr (r, x) ↦ rw (x, Leads) (effects-Tame db _)
      ])
      (λ _. tt)

prepare_encoded-Tame :
    (payload : ℕ) (r : EffectRecord) (db : Db) → Leads (Tame db) (prepare_encoded payload r db)
unfolding prepare_encoded
prepare_encoded-Tame payload r db =
    let same = Tame-refl db in
    let added = effects-Tame db (no_row_yet r payload ∷ db.effects) in ground arith

pub prepare_effect-Tame :
    (encode : ℕ → Option ℕ) (r : EffectRecord) (db : Db)
    → Leads (Tame db) (prepare_effect encode r db)
unfolding prepare_effect
prepare_effect-Tame encode r db = elim (Option-cases (encode r.intent.payload)) [
  | inl e ↦ rw (e, Leads) tt
  | inr (payload, e) ↦ rw (e, Leads) (prepare_encoded-Tame payload r db)
]

pub mark_effect_dispatched-Tame :
    (operation task attempt epoch now : ℕ) (db : Db)
    → Leads (Tame db) (mark_effect_dispatched operation task attempt epoch now db)
unfolding mark_effect_dispatched
mark_effect_dispatched-Tame operation task attempt epoch now db =
    elim (Option-cases (validate_attempt_authority_tx task attempt epoch db)) [
      | inr (e, x) ↦ rw (x, Leads, mark_effect_dispatched) tt
      | inl x ↦ rw (x, Leads, mark_effect_dispatched) (move_effect-Tame operation _ _ db)
    ]

pub observe_effect-Tame :
    (json_valid : ℕ → Bool) (operation : ℕ) (outcome : ObservationOutcome) (result now : ℕ)
    (db : Db)
    → Leads (Tame db) (observe_effect json_valid operation outcome result now db)
unfolding observe_effect
observe_effect-Tame json_valid operation outcome result now db =
    Leads-if (Tame db) (not (is_outcome outcome)) (err bad_outcome) _ (λ _. tt)
      λ _.
        Leads-if (Tame db) (not (result == 0) && not (json_valid result)) (err bad_json) _ (λ _. tt)
          (λ _. move_effect-Tame operation _ _ db)

pub rearm_not_applied-Tame :
    (operation now : ℕ) (db : Db) → Leads (Tame db) (rearm_not_applied operation now db)
unfolding rearm_not_applied
rearm_not_applied-Tame operation now db = move_effect-Tame operation _ _ db

find_where-fresh :
    (new : Task) (ts : List Task)
    → any (collides new) ts ≡ false
    → find_where (by_id new.id) ts ≡ none
unfolding find_where
find_where-fresh new [] h = refl
find_where-fresh new (t ∷ ts) h = ground (arith, find_where-fresh new ts)

contains-fresh :
    (new : Task) (ts : List Task)
    → any (collides new) ts ≡ false
    → contains new.id (task_ids ts) ≡ false
contains-fresh new [] h = refl
contains-fresh new (t ∷ ts) h = ground (arith, contains-fresh new ts)

-- A submitted task begins at epoch 0, which is also the epoch of a task that is not there.
epoch_of-submit :
    (id : ℕ) (new : Task) (ts : List Task)
    → any (collides new) ts ≡ false
    → new.run_epoch ≡ 0
    → epoch_of id (new ∷ ts) ≡ epoch_of id ts
unfolding epoch_of find_where
epoch_of-submit id new ts h z = ground (arith, find_where-fresh new ts h)

pub submit_task-Tame : (task : Task) (db : Db) → Leads (Tame db) (submit_task task db)
unfolding submit_task
submit_task-Tame task db =
    Leads-if (Tame db) (any (collides task) db.tasks) _ _
      (λ _. let same = Tame-refl db in ground arith)
      λ free.
        Leads-if (Tame db) (any (by_project task.project_id) db.projects) _ (err constraint_failed)
          (λ _. record {
            keys = λ d. (contains-fresh task db.tasks free, d);
            epochs = λ id. epoch_of-submit id (record task { run_epoch = 0 }) db.tasks free refl;
            attempts = Demoted-refl db.attempts;
          })
          (λ _. tt)
