-- ===== src/Store/Integration/Unguarded.antt =====
-- internal/store/control.go: what FinalizeTaskCancellation does to a task that is being integrated.
use mar.Prelude.{ℕ, ◌≡◌, refl, subst, true, false, some, ◌==◌, arith, inl, inr, Option-cases, List}
use mar.Sql.{find_where, find_where-holds, count_where, update_where}
use mar.Sql.Keys.{count_of_key}
use mar.Domain.Task.{Task, state_eq, state_eq_iff, integrating, cancelled}
use mar.Domain.Integration.{IntegrationAttempt, dispatched}
use mar.Store.{Db, ok, live_attempts, set_state, by_id, get_task_row}
use mar.Store.Cancellation.{finalize_task_cancellation, is_cancel_of}
use mar.Store.Integration.{by_integration, at_state}
use mar.Store.Integration.Places.{Published, fits, state_of, state_of-moved}
use mar.Store.Integration.Runs.{All-found, fits_dispatched}

integrating_row :
    (task : ℕ) (db : Db)
    → state_of task db.tasks ≡ some integrating
    → (t : Task) × (get_task_row task db ≡ some t) × (t.state ≡ integrating)
unfolding state_of
integrating_row task db h = elim (Option-cases (get_task_row task db)) [
  | inl e ↦ let h' = rw (e, state_of) at h in cc
  | inr (t, e) ↦ let h' = rw (e, state_of) at h in (t, e, cc)
]

finalize_task_cancellation-runs :
    (task now : ℕ) (t : Task) (db : Db)
    → get_task_row task db ≡ some t
    → t.state ≡ integrating
    → (count_where (is_cancel_of task) db.controls == 0) ≡ false
    → live_attempts task db.attempts ≡ 0
    → count_where (at_state task integrating) db.tasks ≡ 1
    → finalize_task_cancellation task now db
      ≡ ok (
        tt,
        record db {
          tasks = update_where (at_state task integrating) (set_state cancelled now) db.tasks;
        },
      )
unfolding finalize_task_cancellation state_eq
finalize_task_cancellation-runs task now t db row at asked dead one =
    rw (row, finalize_task_cancellation, at, asked, dead, one) refl

fits_dispatched-cancelled :
    (a : IntegrationAttempt) (ts : List Task)
    → a.status ≡ dispatched
    → state_of a.task_id ts ≡ some cancelled
    → ¬ (fits (state_of a.task_id ts) a.status ≡ true)
unfolding state_eq
fits_dispatched-cancelled a ts status lost h =
    let h' = rw (lost, status) at h in absurd (ground arith)

-- Where publications and tasks stand together and the attempt is DISPATCHED: if the task has a
-- CANCEL control and no attempt that may still change it, FinalizeTaskCancellation makes the task
-- CANCELLED and leaves the publications as they are, so that publications and tasks do not stand
-- together any more: the DISPATCHED one has lost its task.
pub finalize_task_cancellation_unguarded :
    (id now : ℕ) (a : IntegrationAttempt) (db : Db)
    → Published db
    → find_where (by_integration id) db.integrations ≡ some a
    → a.status ≡ dispatched
    → (count_where (is_cancel_of a.task_id) db.controls == 0) ≡ false
    → live_attempts a.task_id db.attempts ≡ 0
    → (db' : Db) × (finalize_task_cancellation a.task_id now db ≡ ok (tt, db'))
      × (state_of a.task_id db'.tasks ≡ some cancelled)
      × (db'.integrations ≡ db.integrations)
      × ¬ (Published db')
finalize_task_cancellation_unguarded id now a db p found status asked dead =
    let h = All-found _ (by_integration id) db.integrations a p.placed found in
    let there =
      fits_dispatched _ (subst (λ s. fits (state_of a.task_id db.tasks) s ≡ true) status h) in
    let (t, row, at) = integrating_row a.task_id db there in
    let hit = at_state a.task_id integrating in
    let holds : hit t ≡ true =
      let mine = find_where-holds (by_id a.task_id) db.tasks t row in
      let same = (state_eq_iff t.state integrating).1 at in rw (mine, same) refl in
    let one =
      count_of_key (λ (x : Task). x.id) a.task_id hit (by_id a.task_id) db.tasks t
        (λ x y. ground arith) (λ x y. ground arith) p.keys row holds in
    let lost =
      state_of-moved hit (set_state cancelled now) a.task_id db.tasks t (λ x. refl) row holds in
    (
      _,
      finalize_task_cancellation-runs a.task_id now t db row at asked dead one,
      lost,
      refl,
      λ q.
          fits_dispatched-cancelled a _ status lost
            (All-found _ (by_integration id) db.integrations a q.placed found),
    )
