-- ===== src/Store/Revocation.antt =====
-- internal/store/control.go and recovery.go: what a cancellation and a recovery take away.
use mar.Prelude.{
  ℕ, ◌≡◌, ◌≢◌, refl, sym, ◌⊎◌, Bool, true, false, ◌&&◌, not, List, [], ◌∷◌, Option, none, some,
  ◌==◌, arith, inl, inr, ◌∙◌, Option-cases, any,
}
use mar.Sql.{find_where, count_where, update_where}
use mar.Domain.Task.{
  Task, TaskState, ExecutionAttempt, is_active, state_eq, state_eq_refl, cancelled,
}
use mar.Domain.Control.{TaskControl, ControlKind, cancel}
use mar.Store.{
  ◌>>◌, Db, Result, Result-cases, ok, err, Tx, live_attempts, get_task_row, is_attempt, by_id,
  validate_attempt_authority_tx, set_state,
}
use mar.Store.Tasks.{fence}
use mar.Store.Cancellation.{
  revoke, is_unstarted, is_current_running, cancel_task, request_task_cancellation,
  fresh_cancellation, is_past_cancelling,
}
use mar.Store.Controls.{
  control_collides, draft_control, answer_or, insert_task_control_tx, then_keep, task_control_state,
  existing_task_control,
}
use mar.Store.Tame.{On, On-ok, On-if}
use mar.Store.Authority.{validate-Authorized}
use mar.Store.Fencing.{epoch_of-found}

-- The task's row is CANCELLED, or no attempt of it passes the authority check.
abbrev pub Revoked : ℕ → Db → Type 0
Revoked task db =
    ((t : Task) × (get_task_row task db ≡ some t) × (t.state ≡ cancelled))
    ⊎ ((attempt epoch : ℕ) → validate_attempt_authority_tx task attempt epoch db ≢ none)

cancelled_row :
    (task : ℕ) (state : TaskState) (now : ℕ) (ts : List Task) (t : Task)
    → find_where (by_id task) ts ≡ some t
    → state_eq t.state state ≡ true
    → find_where
        (by_id task)
        (update_where (λ x. x.id == task && state_eq x.state state) (set_state cancelled now) ts)
      ≡ some (set_state cancelled now t)
unfolding find_where update_where
cancelled_row task state now [] t e h = cc
cancelled_row task state now (x ∷ xs) t e h = ground (arith, cancelled_row task state now xs t)

fenced_rows :
    (task attempt epoch run now : ℕ) (xs : List ExecutionAttempt) (r : ExecutionAttempt)
    → epoch ≡ run
    → find_where
        (is_attempt task attempt epoch)
        (update_where (is_current_running task run) (fence now) xs)
      ≡ some r
    → is_active r.authority_state ≡ false
unfolding find_where update_where
fenced_rows task attempt epoch run now [] r same e = cc
fenced_rows task attempt epoch run now (x ∷ xs) r same e =
    ground (arith, fenced_rows task attempt epoch run now xs r same)

running-counted :
    (task attempt epoch : ℕ) (xs : List ExecutionAttempt) (r : ExecutionAttempt)
    → find_where (is_attempt task attempt epoch) xs ≡ some r
    → is_active r.authority_state ≡ true
    → (count_where (is_current_running task epoch) xs == 0) ≡ false
unfolding find_where count_where
running-counted task attempt epoch [] r e h = cc
running-counted task attempt epoch (x ∷ xs) r e h =
    ground (arith, running-counted task attempt epoch xs r)

cancel_task-Revoked :
    (task now : ℕ) (t : Task) (db : Db)
    → get_task_row task db ≡ some t
    → On (λ _ db'. Revoked task db') (cancel_task task t.state now db)
cancel_task-Revoked task now t db e =
    On-if (λ _ db'. Revoked task db')
      (count_where (λ x. x.id == task && state_eq x.state t.state) db.tasks == 1) _ _
      (λ _. inl (
        set_state cancelled now t,
        cancelled_row task t.state now db.tasks t e (state_eq_refl t.state),
        refl,
      ))
      (λ _. tt)

revoke-Revoked :
    (task now : ℕ) (t : Task) (db : Db)
    → get_task_row task db ≡ some t
    → On (λ _ db'. Revoked task db') (revoke task (t.state, t.run_epoch) now db)
unfolding revoke
revoke-Revoked task now t db e =
    let P = λ (_ : Unit {0}) (db' : Db). Revoked task db' in
    let cancels = cancel_task-Revoked task now t db e in
    let at = epoch_of-found task db.tasks t e in
    On-if P (is_unstarted t.state) _ _ (λ _. cancels)
      λ _.
        On-if P (not (count_where (is_current_running task t.run_epoch) db.attempts == 0)) _ _
          (λ _. inr λ attempt epoch h.
            let a = validate-Authorized task attempt epoch _ h in
            let same = sym a.at_epoch ∙ at in
            let act = a.row_active in
            let idle =
              fenced_rows task attempt epoch t.run_epoch now db.attempts a.row same a.found in
            ground arith)
          λ idle.
            On-if P (live_attempts task db.attempts == 0) _ _ (λ _. cancels)
              λ _. inr λ attempt epoch h.
                let a = validate-Authorized task attempt epoch db h in
                let same = sym a.at_epoch ∙ at in
                let counted =
                  running-counted task attempt epoch db.attempts a.row a.found a.row_active in
                ground arith

-- The rows that a control's transaction starts from.
abbrev pub SameRows : Db → Db → Type 0
SameRows db db' =
    (db'.tasks ≡ db.tasks) × (db'.attempts ≡ db.attempts) × (db'.integrations ≡ db.integrations)

pub insert_task_control_tx-SameRows :
    (digest : TaskControl → Option ℕ) (control task key : ℕ) (kind : ControlKind) (payload now : ℕ)
    (db : Db)
    → On (λ _. SameRows db) (insert_task_control_tx digest control task key kind payload now db)
unfolding insert_task_control_tx
insert_task_control_tx-SameRows digest control task key kind payload now db =
    elim (Option-cases (digest (draft_control control task key kind payload now db))) [
      | inl e ↦ rw (e, On, insert_task_control_tx) tt
      | inr (h, e) ↦
          rw (e, On, insert_task_control_tx)
            (On-if (λ _. SameRows db)
              (any (control_collides (draft_control control task key kind payload now db))
                db.controls)
              _ _ (λ _. tt) λ _. (refl, refl, refl))
    ]

pub then_keep-On :
    (Q P : Db → Type 0) (m : Tx TaskControl) (k : Tx (Unit {0})) (db : Db)
    → On (λ _. Q) (m db)
    → ((db' : Db) → Q db' → On (λ _. P) (k db'))
    → On (λ _. P) (then_keep m k db)
then_keep-On Q P m k db q p = go (m db) q
  where
    go :
        (r : Result (TaskControl × Db))
        → On (λ _. Q) r
        → On (λ _. P) (elim r [ err e ↦ err e | ok (c, db') ↦ (k >> λ db''. ok (c, db'')) db' ])
    go (err e) q = tt
    go (ok (c, db')) q = carry (k db') (p db' q)
      where
        carry :
            (r : Result (Unit {0} × Db))
            → On (λ _. P) r
            → On (λ _. P) (elim r [ err e ↦ err e | ok (_, db'') ↦ ok (c, db'') ])
        carry (err e) h = tt
        carry (ok (_, db'')) h = h

fresh_cancellation-Revoked :
    (digest : TaskControl → Option ℕ) (control task key payload now : ℕ) (t : Task) (db : Db)
    → get_task_row task db ≡ some t
    → On
        (λ _ db'. Revoked task db')
        (fresh_cancellation digest control task key payload now (t.state, t.run_epoch) db)
fresh_cancellation-Revoked digest control task key payload now t db e =
    On-if (λ _ db'. Revoked task db') (is_past_cancelling t.state) _ _ (λ _. tt)
      λ _.
        then_keep-On (SameRows db) (Revoked task)
          (insert_task_control_tx digest control task key cancel payload now)
          (revoke task (t.state, t.run_epoch) now) db
          (insert_task_control_tx-SameRows digest control task key cancel payload now db)
          (λ db' same. revoke-Revoked task now t db' (rw (same.0) e))

answer_or-On :
    (digest : TaskControl → Option ℕ) (task key : ℕ) (kind : ControlKind) (payload : ℕ)
    (fresh : TaskState × ℕ → Tx TaskControl) (P : Db → Type 0) (db : Db)
    → ((t : Task) → get_task_row task db ≡ some t → On (λ _. P) (fresh (t.state, t.run_epoch) db))
    → On
        (λ (r : TaskControl × Bool) db'. r.1 ≡ true → P db')
        (answer_or digest task key kind payload fresh db)
unfolding task_control_state
answer_or-On digest task key kind payload fresh P db p =
    elim (Result-cases (existing_task_control digest task key kind payload db)) [
      | inl (x, e) ↦ rw (e, On) tt
      | inr (none, e) ↦ elim (Option-cases (get_task_row task db)) [
        | inl t ↦ rw (e, t, On) tt
        | inr (t, found) ↦
            rw (e, found, On) (published (fresh (t.state, t.run_epoch) db) (p t found))
      ]
      | inr (some c, e) ↦ rw (e, On) (λ f. ground arith)
    ]
  where
    published :
        (r : Result (TaskControl × Db))
        → On (λ _. P) r
        → On
            (λ (r : TaskControl × Bool) db'. r.1 ≡ true → P db')
            (elim r [ err e ↦ err e | ok (c, db') ↦ ok ((c, true), db') ])
    published (err e) h = tt
    published (ok (c, db')) h = λ _. h

-- A new cancellation that is accepted takes effect at once: the task's row is CANCELLED, or no
-- attempt of the task passes the authority check any more.
pub request_task_cancellation_revokes :
    (digest : TaskControl → Option ℕ) (control task key payload now : ℕ) (c : TaskControl)
    (db db' : Db)
    → request_task_cancellation digest control task key payload now db ≡ ok ((c, true), db')
    → Revoked task db'
unfolding request_task_cancellation
request_task_cancellation_revokes digest control task key payload now c db db' h =
    On-ok (λ (r : TaskControl × Bool) db'. r.1 ≡ true → Revoked task db') _
      (answer_or-On digest task key cancel payload
        (fresh_cancellation digest control task key payload now) (Revoked task) db
        (λ t found. fresh_cancellation-Revoked digest control task key payload now t db found))
      h refl
