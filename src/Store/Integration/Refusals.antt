-- ===== src/Store/Integration/Refusals.antt =====
-- internal/store/integration.go: what a publication may not do, and what it does at its end.
use mar.Prelude.{ℕ, ◌≡◌, refl, subst, true, some, ◌==◌, arith, inl, inr, Option-cases, Distinct}
use mar.Sql.{find_where, count_where}
use mar.Domain.Task.{state_eq, ready_to_integrate, integrating, cancelled}
use mar.Domain.Integration.{
  IntegrationStatus, prepared, dispatched, integration_complete, integration_blocked,
  IntegrationAttempt, TaskResult,
}
use mar.Store.{Db, Result, set_state, state_conflict}
use mar.Store.Tasks.{move_task}
use mar.Store.Tame.{On, On-if, task_ids}
use mar.Store.Integration.{Digests, by_integration, at_state, at_status, move_integration}
use mar.Store.Integration.Calls.{
  integration_digest, dispatch_tx, dispatch_read, dispatched_row, to_dispatched,
  mark_integration_dispatched, finalize_read, finalize_integration_applied, with_latest,
}
use mar.Store.Integration.Places.{Published, fits, is_pending, state_of}
use mar.Store.Integration.Kept.{
  with_attempt-On, with_latest-On, On-map, On-then, On-answering, move_task-TaskMoved,
}
use mar.Store.Integration.Runs.{All-found}

-- No answer at all.
abbrev pub Refused : {A : Type 0} → Result (A × Db) → Type 0
Refused = On (λ _ _. ⊥)

-- The UPDATE of a task that is not READY_TO_INTEGRATE affects no row.
unready :
    (task now : ℕ) (db : Db)
    → Distinct (task_ids db.tasks)
    → state_of task db.tasks ≡ some cancelled
    → Refused
        (move_task (at_state task ready_to_integrate) (set_state integrating now) state_conflict db)
unfolding state_eq
unready task now db keys c =
    On-map _ (λ _ _. ⊥) _ (λ _ db' moved. let before = moved.moves.before in cc)
      (move_task-TaskMoved (set_state integrating now) task ready_to_integrate integrating
        state_conflict db (λ t. (refl, λ _. refl)) keys)

cancelled_prepared :
    (s : IntegrationStatus) → fits (some cancelled) s ≡ true → is_pending s ≡ true → s ≡ prepared
unfolding state_eq
cancelled_prepared prepared h p = refl
cancelled_prepared dispatched h p = absurd (ground arith)
cancelled_prepared integration_complete h p = cc
cancelled_prepared integration_blocked h p = cc

module _ (d : Digests) where
  dispatch_tx-Refused :
      (a : IntegrationAttempt) (hash now : ℕ) (db : Db)
      → Distinct (task_ids db.tasks)
      → state_of a.task_id db.tasks ≡ some cancelled
      → Refused (dispatch_tx d a hash now db)
  unfolding dispatch_tx
  dispatch_tx-Refused a hash now db keys c =
      let hit = at_status a.id prepared in
      let f = to_dispatched hash now in
      On-then (λ _ _. ⊥) (λ db'. db'.tasks ≡ db.tasks) (move_integration hit f)
        (move_task (at_state a.task_id ready_to_integrate) (set_state integrating now)
          state_conflict)
        db
        (On-if (λ _ db'. db'.tasks ≡ db.tasks) (count_where hit db.integrations == 1) _ _
          (λ _. refl) (λ _. tt))
        (λ db' same. unready a.task_id now db' (rw same keys) (rw same c))

  dispatch_read-Refused :
      (a : IntegrationAttempt) (now : ℕ) (db : Db)
      → a.status ≡ prepared
      → Distinct (task_ids db.tasks)
      → state_of a.task_id db.tasks ≡ some cancelled
      → Refused (dispatch_read d now a db)
  unfolding dispatch_read
  dispatch_read-Refused a now db status keys c =
      elim (Option-cases (integration_digest d (dispatched_row d a now))) [
        | inl e ↦ rw (status, e, On) tt
        | inr (h, e) ↦
            rw (status, e, On)
              (On-answering (λ _. ⊥) (dispatch_tx d a h now)
                (record (dispatched_row d a now) { integrity_hash = h }) db
                (dispatch_tx-Refused a h now db keys c))
      ]

  finalize_read-Refused :
      (a : IntegrationAttempt) (head new_result now : ℕ) (latest : TaskResult) (db : Db)
      → a.status ≡ prepared
      → Refused (finalize_read d a head new_result now latest db)
  unfolding finalize_read
  finalize_read-Refused a head new_result now latest db status = rw (status, On) tt

  -- Where publications and tasks stand together, an attempt that has not ended and whose task was
  -- CANCELLED is neither dispatched nor recorded as applied: both calls answer an error.
  pub cancelled_unpublished :
      (id now : ℕ) (a : IntegrationAttempt) (db : Db)
      → Published db
      → find_where (by_integration id) db.integrations ≡ some a
      → is_pending a.status ≡ true
      → state_of a.task_id db.tasks ≡ some cancelled
      → Refused (mark_integration_dispatched d id now db)
        × ((head new_result at : ℕ)
            → Refused (finalize_integration_applied d id head new_result at db))
  unfolding mark_integration_dispatched finalize_integration_applied
  cancelled_unpublished id now a db p found live c =
      let h = All-found _ (by_integration id) db.integrations a p.placed found in
      let status = cancelled_prepared a.status (subst (λ o. fits o a.status ≡ true) c h) live in
      (
        with_attempt-On d (λ _ _. ⊥) id a (dispatch_read d now) db found
            (dispatch_read-Refused a now db status p.keys c),
        λ head new_result at.
            with_attempt-On d (λ _ _. ⊥) id a
              (λ x. with_latest d x.task_id (finalize_read d x head new_result at)) db found
              (with_latest-On d (λ _ _. ⊥) a.task_id (finalize_read d a head new_result at) db
                (λ r _. finalize_read-Refused a head new_result at r db status)),
      )
