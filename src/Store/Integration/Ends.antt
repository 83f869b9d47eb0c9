-- ===== src/Store/Integration/Ends.antt =====
-- internal/store/integration.go: what the end of a publication leaves in the store.
use mar.Prelude.{
  ℕ, ◌+◌, ◌≤◌, ◌≡◌, refl, sym, subst, Bool, true, ◌||◌, not, List, [], ◌∷◌, some, ◌==◌,
  if◌then◌else◌, arith, inl, inr, Option-cases, Distinct, any,
}
use mar.Sql.{find_where, count_where, update_where, find_where-holds}
use mar.Domain.Task.{TaskState, complete}
use mar.Domain.Integration.{
  IntegrationStatus, dispatched, integration_complete, status_eq, IntegrationAttempt, TaskResult,
  noted_applied, result_integrated,
}
use mar.Store.{Db, Result, Result-cases, ok, err, set_state, state_conflict, ◌>>◌}
use mar.Store.Tasks.{move_task}
use mar.Store.Tame.{On, On-if, On-ok, task_ids}
use mar.Store.Integration.{
  Digests, by_integration, at_state, at_status, move_integration, latest_result, next_result,
  result_collides, result_refers,
}
use mar.Store.Integration.Calls.{
  integration_digest, finalize_read, finalize_integration_applied, with_latest, is_applied,
  close_tx, close_rows, close_error, end_attempt, ended_row, to_ended, state_at, sealed,
  insert_integration_result_tx, result_valid, get_verification_evidence,
}
use mar.Store.Integration.Places.{Published, state_of}
use mar.Store.Integration.Moves.{row_hit, Named}
use mar.Store.Integration.Kept.{
  On-map, On-then, On-unless, On-answers, elsewhere-Published, elsewhere-Named, with_attempt-On,
  with_latest-On, move_task-TaskMoved,
}

find_where-updated {ℓ} :
    {R : Type ℓ} (q hit : R → Bool) (f : R → R) (xs : List R) (r : R)
    → ((x : R) → q (f x) ≡ q x)
    → find_where q xs ≡ some r
    → hit r ≡ true
    → find_where q (update_where hit f xs) ≡ some (f r)
unfolding find_where update_where
find_where-updated q hit f [] r same e h = cc
find_where-updated q hit f (x ∷ xs) r same e h =
    ground (arith, same x, find_where-updated q hit f xs r same)

-- The attempt and its task after the end of the publication, and the results of `db` with `new`.
pub record Ended (a : IntegrationAttempt) (to : IntegrationStatus) (head : ℕ) (end : TaskState)
    (results : List TaskResult) (db : Db) : Type 0 where
  pub row : IntegrationAttempt
  pub found : find_where (by_integration a.id) db.integrations ≡ some row
  pub status : row.status ≡ to
  pub observed : row.observed_head ≡ head
  pub task : state_of a.task_id db.tasks ≡ some end
  pub written : db.results ≡ results

module _ (d : Digests) where
  close_rows-Ended :
      (a : IntegrationAttempt) (want to : IntegrationStatus) (head failure hash now : ℕ)
      (state end : TaskState) (db : Db)
      → Distinct (task_ids db.tasks)
      → count_where (by_integration a.id) db.integrations ≤ 1
      → Named a db
      → On
          (λ _ db'. Ended a to head end db.results db')
          (close_rows d a want to head failure hash now state end db)
  unfolding close_rows
  close_rows-Ended a want to head failure hash now state end db keys ids n =
      let hit = at_status a.id want in
      let f = to_ended to head failure hash now in
      let xs = db.integrations in
      On-then (λ _ db'. Ended a to head end db.results db')
        (λ db'.
          (db'.tasks ≡ db.tasks)
          × (db'.results ≡ db.results)
          × (find_where (by_integration a.id) db'.integrations ≡ some (f n.row)))
        (move_integration hit f)
        (move_task (at_state a.task_id state) (set_state end now) state_conflict) db
        (On-if _ (count_where hit xs == 1) _ _
          (λ one. (
            refl,
            refl,
            find_where-updated (by_integration a.id) hit f xs n.row (λ x. refl) n.found
                (row_hit a.id want xs n.row ids n.found
                  (find_where-holds (by_integration a.id) xs n.row n.found) one),
          ))
          (λ _. tt))
        λ db' same.
          On-map _ (λ _ db''. Ended a to head end db.results db'') _
            (λ _ db'' moved. subst (Ended a to head end db.results) (sym moved.same) (record {
              row = f n.row;
              found = same.2;
              status = refl;
              observed = refl;
              task = moved.moves.after;
              written = same.1;
            }))
            (move_task-TaskMoved (set_state end now) a.task_id state end state_conflict db'
              (λ t. (refl, λ _. refl)) (rw same.0 keys))

  insert_result-written :
      (r : TaskResult) (db : Db)
      → On
          (λ _ db'. db' ≡ record db { results = r ∷ db.results })
          (insert_integration_result_tx d r db)
  unfolding insert_integration_result_tx
  insert_result-written r db =
      let P = λ (_ : Unit {0}) (db' : Db). db' ≡ record db { results = r ∷ db.results } in
      On-if P (not (result_valid d r)) _ _ (λ _. tt)
        λ _.
          On-if P (any (result_collides r) db.results || not (result_refers r db)) _ _ (λ _. tt)
            (λ _. refl)

  end_attempt-Ended :
      (a : IntegrationAttempt) (want to : IntegrationStatus) (result : TaskResult)
      (head failure now : ℕ) (end : TaskState) (db : Db)
      → Published db
      → Named a db
      → On
          (λ r db'. (r ≡ result) × Ended a to head end db.results db')
          (end_attempt d a want to result head failure now end db)
  unfolding end_attempt
  end_attempt-Ended a want to result head failure now end db p n =
      elim (Option-cases (integration_digest d (ended_row d a to head failure now))) [
        | inl e ↦ rw (e, On) tt
        | inr (h, e) ↦
            rw (e, On)
              (On-answers (Ended a to head end db.results)
                (close_rows d a want to head failure h now (state_at d want) end) result db
                (close_rows-Ended a want to head failure h now (state_at d want) end db p.keys
                  (p.ids a.id) n))
      ]

  close_tx-Ended :
      (a : IntegrationAttempt) (want to : IntegrationStatus) (latest result : TaskResult)
      (head failure now : ℕ) (end : TaskState) (db : Db)
      → Published db
      → Named a db
      → On
          (λ r db'. (r ≡ result) × Ended a to head end (result ∷ db.results) db')
          (close_tx d a want to latest result head failure now end db)
  unfolding close_tx
  close_tx-Ended a want to latest result head failure now end db p n =
      let Q = λ (r : TaskResult) (db' : Db).
        (r ≡ result) × Ended a to head end (result ∷ db.results) db' in
      let tail = end_attempt d a want to result head failure now end in
      On-unless Q (close_error d a want latest db) (insert_integration_result_tx d result >> tail)
        db
        (On-then Q (λ db'. db' ≡ record db { results = result ∷ db.results })
          (insert_integration_result_tx d result) tail db (insert_result-written result db)
          λ db' same.
            subst (λ x. On Q (tail x)) (sym same)
              (end_attempt-Ended a want to result head failure now end
                (record db { results = result ∷ db.results }) (elsewhere-Published db _ refl refl p)
                (elsewhere-Named a db _ refl n)))

  latest_of :
      (task : ℕ) (rs : List TaskResult) (r : TaskResult)
      → latest_result task rs ≡ some r
      → r.task_id ≡ task
  unfolding latest_result
  latest_of task [] r e = cc
  latest_of task (x ∷ xs) r e = elim (Option-cases (latest_result task xs)) [
    | inl n ↦ ground arith
    | inr (s, found) ↦ let same = latest_of task xs s found in ground arith
  ]

  newest :
      (task : ℕ) (rs : List TaskResult) (latest new : TaskResult)
      → latest_result task rs ≡ some latest
      → new.task_id ≡ task
      → new.version ≡ latest.version + 1
      → latest_result task (new ∷ rs) ≡ some new
  unfolding latest_result
  newest task rs latest new e of next = ground arith

  finalize_read-Ended :
      (a : IntegrationAttempt) (head new_result now : ℕ) (latest : TaskResult) (db : Db)
      → Published db
      → Named a db
      → a.status ≡ dispatched
      → latest_result a.task_id db.results ≡ some latest
      → On
          (λ r db'.
            (head ≡ a.candidate_revision)
            × Ended a integration_complete head complete (r ∷ db.results) db'
            × (latest_result a.task_id (r ∷ db.results) ≡ some r)
            × (r.integration_status ≡ result_integrated))
          (finalize_read d a head new_result now latest db)
  unfolding finalize_read latest_result
  finalize_read-Ended a head new_result now latest db p n status e =
      let result = sealed d (next_result latest new_result (noted_applied a.id head) [] true now) in
      let Q = λ (r : TaskResult) (db' : Db).
        (head ≡ a.candidate_revision)
        × Ended a integration_complete head complete (r ∷ db.results) db'
        × (latest_result a.task_id (r ∷ db.results) ≡ some r)
        × (r.integration_status ≡ result_integrated) in
      let of = latest_of a.task_id db.results latest e in
      let ends =
        close_tx d a dispatched integration_complete latest result head 0 now complete db in
      let applied : Result (TaskResult × Db) = elim (get_verification_evidence d a.evidence_id db) [
        | err e ↦ err e
        | ok _ ↦ ends
      ] in
      On-if Q (status_eq a.status integration_complete) (ok (latest, db))
        (if not (is_applied d a head latest) then err state_conflict else applied)
        (λ y. let y' = subst (λ s. status_eq s integration_complete ≡ true) status y in cc)
        λ _.
          On-if Q (not (is_applied d a head latest)) (err state_conflict) applied (λ _. tt)
            λ fits_it. elim (Result-cases (get_verification_evidence d a.evidence_id db)) [
              | inl (x, e') ↦ rw (e', On) tt
              | inr (row, e') ↦
                  rw (e', On)
                    (On-map
                      (λ r db'.
                        (r ≡ result)
                        × Ended a integration_complete head complete (result ∷ db.results) db')
                      Q ends
                      (λ r db' both.
                        subst (λ z. Q z db') (sym both.0)
                          (
                            ground arith,
                            both.1,
                            newest a.task_id db.results latest result e of refl,
                            refl,
                          ))
                      (close_tx-Ended a dispatched integration_complete latest result head 0 now
                        complete db p n))
            ]

-- Where publications and tasks stand together and the attempt is DISPATCHED: if
-- FinalizeIntegrationApplied answers a result, then the observed head was the candidate, the task is
-- COMPLETE, the attempt is COMPLETE with that head, and the answer, INTEGRATED, is the one result
-- that was added and the latest of the task.
pub finalize_integration_applied_completes :
    (d : Digests) (id head new_result now : ℕ) (a : IntegrationAttempt) (r : TaskResult)
    (db db' : Db)
    → Published db
    → find_where (by_integration id) db.integrations ≡ some a
    → a.status ≡ dispatched
    → finalize_integration_applied d id head new_result now db ≡ ok (r, db')
    → (head ≡ a.candidate_revision)
      × Ended a integration_complete head complete (r ∷ db.results) db'
      × (latest_result a.task_id db'.results ≡ some r)
      × (r.integration_status ≡ result_integrated)
unfolding finalize_integration_applied
finalize_integration_applied_completes d id head new_result now a r db db' p found status e =
    let at = find_where-holds (by_integration id) db.integrations a found in
    let ids : id ≡ a.id = ground arith in
    let n : Named a db = record {
      row = a;
      found = subst (λ k. find_where (by_integration k) db.integrations ≡ some a) ids found;
      task = refl;
    } in
    let Q = λ (r : TaskResult) (db' : Db).
      (head ≡ a.candidate_revision)
      × Ended a integration_complete head complete (r ∷ db.results) db'
      × (latest_result a.task_id (r ∷ db.results) ≡ some r)
      × (r.integration_status ≡ result_integrated) in
    let done =
      On-ok Q (finalize_integration_applied d id head new_result now db)
        (with_attempt-On d Q id a
          (λ x. with_latest d x.task_id (finalize_read d x head new_result now)) db found
          (with_latest-On d Q a.task_id (finalize_read d a head new_result now) db
            (λ latest l. finalize_read-Ended d a head new_result now latest db p n status l)))
        e in
    let ended = done.1 in (done.0, ended, rw ended.written (done.2), done.3)
