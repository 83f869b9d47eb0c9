-- ===== src/Store/Integration/Steps.antt =====
-- internal/store/integration.go and control.go: publications and cancellations in any order. A step
-- is a transaction, with what its caller read before it.
use mar.Prelude.{
  ℕ, ◌≡◌, refl, inl, inr, Bool, true, false, not, [], Option, none, some, Option-cases, ◌==◌, arith,
  Distinct,
}
use mar.Sql.{count_where}
use mar.Domain.Task.{TaskState, state_eq, cancelled, verified, blocked, complete, integrating}
use mar.Domain.Control.{TaskControl, ControlKind, cancel}
use mar.Domain.Integration.{
  IntegrationStatus, prepared, dispatched, integration_complete, integration_blocked,
  IntegrationAttempt, TaskResult,
}
use mar.Store.{
  Db, Result, Result-cases, ok, get_task_row, Tx, set_state, live_attempts, state_conflict,
}
use mar.Store.Controls.{
  answer_or, existing_task_control, task_control_state, insert_task_control_tx,
}
use mar.Store.Cancellation.{
  request_task_cancellation, fresh_cancellation, revoke, cancel_task, is_past_cancelling,
  is_unstarted, is_current_running, finalize_task_cancellation, is_cancel_of,
}
use mar.Store.Revocation.{SameRows, insert_task_control_tx-SameRows, then_keep-On}
use mar.Store.Tame.{On, On-ok, On-if, task_ids}
use mar.Store.Integration.{Digests}
use mar.Store.Integration.Calls.{
  prepare_tx, acknowledge_blocked_verified_integration_retry, dispatch_tx, close_tx,
  block_verified_tx,
}
use mar.Store.Integration.Places.{state_of, Published, Moves, is_pending, fits}
use mar.Store.Integration.Moves.{Named, task-Published, idle_fits}
use mar.Store.Integration.Kept.{
  prepare_tx-Published, acknowledge-Published, dispatch_tx-Published, close_tx-Published,
  block_verified_tx-Published, one_task-Published, elsewhere-Published, is_idle, idle_ended,
}

abbrev pub is_integrating : Option TaskState → Bool
is_integrating none = false
is_integrating (some s) = state_eq s integrating

-- FinalizeTaskCancellation does not ask whether the task is INTEGRATING, as RequestTaskCancellation
-- does; `finishes` is a call of it on a task that is not.
-- `elsewhere` is whatever changes neither tasks nor publications, and `moves` any other change of
-- one task's state, from one that is not READY_TO_INTEGRATE, INTEGRATING or CANCELLED.
pub data Step (d : Digests) (digest : TaskControl → Option ℕ) (db db' : Db) : Type 0 where
  prepares :
      (fit : TaskResult → Bool) (seed a : IntegrationAttempt) (now : ℕ)
      → prepare_tx d verified fit seed now db ≡ ok (a, db')
      → Step d digest db db'
  prepares_blocked :
      (fit : TaskResult → Bool) (seed a : IntegrationAttempt) (now : ℕ)
      → prepare_tx d blocked fit seed now db ≡ ok (a, db')
      → Step d digest db db'
  acknowledges :
      (task result version now : ℕ)
      → acknowledge_blocked_verified_integration_retry d task result version now db ≡ ok (tt, db')
      → Step d digest db db'
  dispatches :
      (a : IntegrationAttempt) (hash now : ℕ)
      → Named a db
      → dispatch_tx d a hash now db ≡ ok (tt, db')
      → Step d digest db db'
  applies :
      (a : IntegrationAttempt) (latest result r : TaskResult) (head now : ℕ)
      → Named a db
      → close_tx d a dispatched integration_complete latest result head 0 now complete db
        ≡ ok (r, db')
      → Step d digest db db'
  blocks :
      (a : IntegrationAttempt) (latest result r : TaskResult) (head reason now : ℕ)
      → Named a db
      → is_pending a.status ≡ true
      → close_tx d a a.status integration_blocked latest result head reason now blocked db
        ≡ ok (r, db')
      → Step d digest db db'
  blocks_verified :
      (task : ℕ) (latest result r : TaskResult) (now : ℕ)
      → block_verified_tx d task latest result now db ≡ ok (r, db')
      → Step d digest db db'
  cancels :
      (control task key payload now : ℕ) (c : TaskControl × Bool)
      → request_task_cancellation digest control task key payload now db ≡ ok (c, db')
      → Step d digest db db'
  finishes :
      (task now : ℕ)
      → is_integrating (state_of task db.tasks) ≡ false
      → finalize_task_cancellation task now db ≡ ok (tt, db')
      → Step d digest db db'
  moves :
      (task : ℕ) (from to : TaskState)
      → is_idle from ≡ true
      → Moves task from to db.tasks db'.tasks
      → db'.integrations ≡ db.integrations
      → Step d digest db db'
  elsewhere : db'.tasks ≡ db.tasks → db'.integrations ≡ db.integrations → Step d digest db db'

pub data Reach (d : Digests) (digest : TaskControl → Option ℕ) (db : Db) : Db → Type 0 where
  here : Reach d digest db db
  next : {s t : Db} → Reach d digest db s → Step d digest s t → Reach d digest db t

-- A task that may be cancelled has no DISPATCHED attempt.
cancelling_safe :
    (state : TaskState) (s : IntegrationStatus)
    → is_past_cancelling state ≡ false
    → fits (some state) s ≡ true
    → fits (some cancelled) s ≡ true
unfolding state_eq
cancelling_safe state prepared h e = refl
cancelling_safe state dispatched h e = ground arith
cancelling_safe state integration_complete h e = refl
cancelling_safe state integration_blocked h e = refl

cancel_task-Published :
    (task : ℕ) (state : TaskState) (now : ℕ) (db : Db)
    → is_past_cancelling state ≡ false
    → Published db
    → On (λ _ db'. Published db') (cancel_task task state now db)
cancel_task-Published task state now db h p =
    one_task-Published (set_state cancelled now) task state cancelled state_conflict db
      (λ t. (refl, λ _. refl)) (λ s. cancelling_safe state s h) p

revoke-Published :
    (task : ℕ) (s : TaskState × ℕ) (now : ℕ) (db : Db)
    → is_past_cancelling s.0 ≡ false
    → Published db
    → On (λ _ db'. Published db') (revoke task s now db)
unfolding revoke
revoke-Published task (state, epoch) now db h p =
    let P = λ (_ : Unit {0}) (db' : Db). Published db' in
    let cancels_it = cancel_task-Published task state now db h p in
    On-if P (is_unstarted state) _ _ (λ _. cancels_it)
      λ _.
        On-if P (not (count_where (is_current_running task epoch) db.attempts == 0)) _ _
          (λ _. elsewhere-Published db _ refl refl p)
          λ _. On-if P (live_attempts task db.attempts == 0) _ _ (λ _. cancels_it) (λ _. p)

-- A call that answers an existing control, or runs `fresh`.
answer_or-Published :
    (digest : TaskControl → Option ℕ) (task key : ℕ) (kind : ControlKind) (payload : ℕ)
    (fresh : TaskState × ℕ → Tx TaskControl) (db : Db)
    → ((s : TaskState × ℕ) → On (λ _ db'. Published db') (fresh s db))
    → Published db
    → On (λ _ db'. Published db') (answer_or digest task key kind payload fresh db)
answer_or-Published digest task key kind payload fresh db h p =
    elim (Result-cases (existing_task_control digest task key kind payload db)) [
      | inl (x, e) ↦ rw (e, On) tt
      | inr (some c, e) ↦ rw (e, On) p
      | inr (none, e) ↦ elim (Result-cases (task_control_state task db)) [
        | inl (x, y) ↦ rw (e, y, On) tt
        | inr (s, y) ↦ elim (Result-cases (fresh s db)) [
          | inl (x, z) ↦ rw (e, y, z, On) tt
          | inr ((c, db'), z) ↦ rw (e, y, z, On) (On-ok (λ _ d. Published d) _ (h s) z)
        ]
      ]
    ]

request_task_cancellation-Published :
    (digest : TaskControl → Option ℕ) (control task key payload now : ℕ) (db : Db)
    → Published db
    → On (λ _ db'. Published db') (request_task_cancellation digest control task key payload now db)
unfolding request_task_cancellation
request_task_cancellation-Published digest control task key payload now db p =
    answer_or-Published digest task key cancel payload
      (fresh_cancellation digest control task key payload now) db
      (λ s.
        On-if (λ _ db'. Published db') (is_past_cancelling s.0) _ _ (λ _. tt)
          λ open_yet.
            then_keep-On (SameRows db) Published
              (insert_task_control_tx digest control task key cancel payload now)
              (revoke task s now) db
              (insert_task_control_tx-SameRows digest control task key cancel payload now db)
              λ db' same.
                revoke-Published task s now db' open_yet
                  (elsewhere-Published db db' same.0 same.2 p))
      p

-- A task that is not INTEGRATING has no DISPATCHED attempt.
finishing_safe :
    (state : TaskState) (s : IntegrationStatus)
    → state_eq state integrating ≡ false
    → fits (some state) s ≡ true
    → fits (some cancelled) s ≡ true
unfolding state_eq
finishing_safe state prepared h e = refl
finishing_safe state dispatched h e = cc
finishing_safe state integration_complete h e = refl
finishing_safe state integration_blocked h e = refl

finalize_task_cancellation-Published :
    (task now : ℕ) (db : Db)
    → is_integrating (state_of task db.tasks) ≡ false
    → Published db
    → On (λ _ db'. Published db') (finalize_task_cancellation task now db)
unfolding finalize_task_cancellation state_of
finalize_task_cancellation-Published task now db h p =
    let P = λ (_ : Unit {0}) (db' : Db). Published db' in
    elim (Option-cases (get_task_row task db)) [
      | inl e ↦ rw (e, On, finalize_task_cancellation) tt
      | inr (t, e) ↦
          let h' = rw (e, state_of) at h in
          rw (e, On, finalize_task_cancellation)
            (On-if P (state_eq t.state cancelled) _ _ (λ _. p)
              λ _.
                On-if P (count_where (is_cancel_of task) db.controls == 0) _ _ (λ _. tt)
                  λ _.
                    On-if P (not (live_attempts task db.attempts == 0)) _ _ (λ _. tt)
                      λ _.
                        one_task-Published (set_state cancelled now) task t.state cancelled
                          state_conflict db (λ x. (refl, λ _. refl))
                          (λ s. finishing_safe t.state s h') p)
    ]

-- A step to `db'` from what holds of every answer of its transaction.
answered {ℓ} :
    {A : Type ℓ} (r : Result (A × Db)) {a : A} {db : Db}
    → r ≡ ok (a, db)
    → On (λ _ d. Published d) r
    → Published db
answered r e h = On-ok (λ _ d. Published d) r h e

-- Every step keeps publications and their tasks together.
pub Step-Published :
    (d : Digests) (digest : TaskControl → Option ℕ) (db db' : Db)
    → Step d digest db db'
    → Published db
    → Published db'
unfolding is_idle state_eq
Step-Published d digest db db' (prepares fit seed a now e) p =
    answered _ e
      (prepare_tx-Published d verified fit seed now db (λ s. idle_ended verified s refl) p)
Step-Published d digest db db' (prepares_blocked fit seed a now e) p =
    answered _ e (prepare_tx-Published d blocked fit seed now db (λ s. idle_ended blocked s refl) p)
Step-Published d digest db db' (acknowledges task result version now e) p =
    answered _ e (acknowledge-Published d task result version now db p)
Step-Published d digest db db' (dispatches a hash now n e) p =
    answered _ e (dispatch_tx-Published d a hash now db n p)
Step-Published d digest db db' (applies a latest result r head now n e) p = answered _ e (
    close_tx-Published d a dispatched integration_complete latest result head 0 now complete db refl
      (λ s. refl) n p)
Step-Published d digest db db' (blocks a latest result r head reason now n live e) p =
    answered _ e (
      close_tx-Published d a a.status integration_blocked latest result head reason now blocked db
        live (λ s. refl) n p)
Step-Published d digest db db' (blocks_verified task latest result r now e) p =
    answered _ e (block_verified_tx-Published d task latest result now db p)
Step-Published d digest db db' (cancels control task key payload now c e) p =
    answered _ e (request_task_cancellation-Published digest control task key payload now db p)
Step-Published d digest db db' (finishes task now open_yet e) p =
    answered _ e (finalize_task_cancellation-Published task now db open_yet p)
Step-Published d digest db db' (moves task from to idle m i) p =
    elsewhere-Published (record db { tasks = db'.tasks }) db' refl i
      (task-Published task from to db db'.tasks
        (λ s h. idle_fits (some to) s (idle_ended from s idle h)) m p)
Step-Published d digest db db' (elsewhere t i) p = elsewhere-Published db db' t i p

pub Reach-keeps :
    (d : Digests) (digest : TaskControl → Option ℕ) (db db' : Db)
    → Reach d digest db db'
    → Published db
    → Published db'
Reach-keeps d digest db db' here p = p
Reach-keeps d digest db db' (next {s = s} r st) p =
    Step-Published d digest s db' st (Reach-keeps d digest db s r p)

-- From a store without publications, whose tasks have unique keys, every order of the steps leads to
-- a store in which a PREPARED attempt belongs to a
-- task that is READY_TO_INTEGRATE or CANCELLED, a DISPATCHED one to a task that is INTEGRATING, and
-- a task has one attempt at most that has not ended. The steps are the transactions of publications,
-- requests of cancellations, FinalizeTaskCancellation on a task that is not INTEGRATING, and moves of
-- a task from a state that is not READY_TO_INTEGRATE, INTEGRATING or CANCELLED.
pub Reach-Published :
    (d : Digests) (digest : TaskControl → Option ℕ) (db db' : Db)
    → Distinct (task_ids db.tasks)
    → db.integrations ≡ []
    → Reach d digest db db'
    → Published db'
unfolding count_where
Reach-Published d digest db db' keys none_yet r = Reach-keeps d digest db db' r (record {
  keys = keys;
  ids = λ k. rw none_yet (omega arith);
  single = λ t. rw none_yet (omega arith);
  placed = rw none_yet tt;
})
