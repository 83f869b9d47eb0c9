-- ===== src/Store/Integration/Runs.antt =====
-- internal/store/integration.go: whole calls, one after the other.
use mar.Prelude.{
  ℕ, ◌≡◌, refl, ap, subst, Bool, true, false, ◌&&◌, ◌||◌, not, List, [], ◌∷◌, Option, none, some,
  if◌then◌else◌, arith, inl, inr, Bool-cases, Option-cases, All, Distinct,
}
use mar.Sql.{find_where, find_where-holds}
use mar.Domain.Task.{TaskState, state_eq_iff, integrating, verified, blocked}
use mar.Domain.Control.{TaskControl}
use mar.Domain.Integration.{
  IntegrationStatus, prepared, dispatched, integration_complete, integration_blocked, status_eq,
  IntegrationAttempt, TaskResult, is_result_blocked, is_result_verified, noted_applied,
  noted_attempt_blocked, noted_blocked,
}
use mar.Store.{Db, Result, Result-cases, ok, err, Tx, state_conflict}
use mar.Store.Cancellation.{request_task_cancellation, finalize_task_cancellation}
use mar.Store.History.{settle}
use mar.Store.Tame.{On, On-if, task_ids}
use mar.Store.Integration.{
  Digests, by_integration, is_candidate, is_blocked_candidate, same_version, next_result,
}
use mar.Store.Integration.Calls.{
  scan_integration_attempt, get_integration_attempt, integration_attempt_by_result,
  latest_task_result, get_verification_evidence, prepare_tx, prepare, prepare_integration_attempt,
  prepare_blocked_verified_integration_attempt, acknowledge_blocked_verified_integration_retry,
  dispatch_tx, mark_integration_dispatched, dispatched_row, integration_digest, close_tx, sealed,
  finalize_read, finalize_integration_applied, block_read, block_attempt_read, block_verified_read,
  dispatch_read, block_integration_attempt, block_verified_tx, block_verified_integration,
  with_attempt, with_latest, is_applied, integration_valid,
}
use mar.Store.Integration.Places.{Published, is_pending, fits, state_of}
use mar.Store.Integration.Moves.{Named}
use mar.Store.Integration.Kept.{On-answering}
use mar.Store.Integration.Steps.{
  Step, Reach, here, next, prepares, prepares_blocked, acknowledges, dispatches, applies, blocks,
  blocks_verified, cancels, finishes, is_integrating, Reach-Published, Reach-keeps,
}

-- The calls that publish, and the two calls of a cancellation, which compete with them.
pub data Call : Type 0 where
  prepares_it : IntegrationAttempt → ℕ → Call
  prepares_again : IntegrationAttempt → ℕ → Call
  acknowledges_it : ℕ → ℕ → ℕ → ℕ → Call
  dispatches_it : ℕ → ℕ → Call
  finalizes_it : ℕ → ℕ → ℕ → ℕ → Call
  blocks_it : ℕ → ℕ → ℕ → ℕ → ℕ → Call
  blocks_result : ℕ → ℕ → ℕ → ℕ → Call
  cancels_it : ℕ → ℕ → ℕ → ℕ → ℕ → Call
  finishes_cancelling : ℕ → ℕ → Call

On-self {ℓ} : {A : Type ℓ} (r : Result (A × Db)) → On (λ a db. r ≡ ok (a, db)) r
On-self (err e) = tt
On-self (ok (a, db)) = refl

pending_status :
    (s : IntegrationStatus)
    → not (status_eq s prepared || status_eq s dispatched) ≡ false
    → is_pending s ≡ true
pending_status prepared h = refl
pending_status dispatched h = refl
pending_status integration_complete h = cc
pending_status integration_blocked h = cc

pub All-found {ℓ κ} :
    {R : Type ℓ} (P : R → Type κ) (q : R → Bool) (xs : List R) (x : R)
    → All P xs
    → find_where q xs ≡ some x
    → P x
unfolding find_where
All-found P q [] x h e = cc
All-found P q (y ∷ ys) x h e = elim (Bool-cases (q y)) [
  | inl t ↦ let e' = rw t at e in let same : y ≡ x = cc in subst P same h.0
  | inr f ↦ let e' = rw f at e in All-found P q ys x h.1 e'
]

pub fits_dispatched : (o : Option TaskState) → fits o dispatched ≡ true → o ≡ some integrating
fits_dispatched none h = cc
fits_dispatched (some s) h = ap some ((state_eq_iff s integrating).0 h)

module _ (d : Digests) (digest : TaskControl → Option ℕ) where
  unfoldable pub step : Db → Call → Db
  step db (prepares_it seed now) = settle db (prepare_integration_attempt d seed now db)
  step db (prepares_again seed now) =
      settle db (prepare_blocked_verified_integration_attempt d seed now db)
  step db (acknowledges_it t r v now) =
      settle db (acknowledge_blocked_verified_integration_retry d t r v now db)
  step db (dispatches_it id now) = settle db (mark_integration_dispatched d id now db)
  step db (finalizes_it id head r now) = settle db (finalize_integration_applied d id head r now db)
  step db (blocks_it id head reason r now) =
      settle db (block_integration_attempt d id head reason r now db)
  step db (blocks_result t reason r now) =
      settle db (block_verified_integration d t reason r now db)
  step db (cancels_it c t k p now) = settle db (request_task_cancellation digest c t k p now db)
  step db (finishes_cancelling t now) = settle db (finalize_task_cancellation t now db)

  unfoldable pub run : Db → List Call → Db
  run db [] = db
  run db (c ∷ cs) = run (step db c) cs

  -- FinalizeTaskCancellation is not called on a task that is INTEGRATING.
  abbrev pub Timely : Db → Call → Type 0
  Timely db (finishes_cancelling t now) = is_integrating (state_of t db.tasks) ≡ false
  Timely db _ = Unit

  -- No call of the list does that.
  abbrev pub AllTimely : Db → List Call → Type 0
  AllTimely db [] = Unit
  AllTimely db (c ∷ cs) = Timely db c × AllTimely (step db c) cs

  -- The store is as it was, or one step later.
  abbrev pub Soon : {A : Type 0} → Db → A → Db → Type 0
  Soon db a db' = Reach d digest db db'

  soon :
      {A : Type 0} (r : Result (A × Db)) (db : Db)
      → ((a : A) (db' : Db) → r ≡ ok (a, db') → Step d digest db db')
      → On (Soon db) r
  soon (err e) db h = tt
  soon (ok (a, db')) db h = next here (h a db' refl)

  prepare-Reach :
      (from : TaskState) (accepts fit : TaskResult → Bool) (seed : IntegrationAttempt) (now : ℕ)
      (db : Db)
      → On (Soon db) (prepare_tx d from fit seed now db)
      → On (Soon db) (prepare d from accepts fit seed now db)
  unfolding prepare
  prepare-Reach from accepts fit seed now db h =
      elim (Result-cases (latest_task_result d seed.task_id db)) [
        | inl (x, e) ↦ rw (e, On) tt
        | inr (none, e) ↦ rw (e, On) tt
        | inr (some latest, e) ↦
            rw (e, On)
              (On-if (Soon db) (not (accepts latest)) _ _ (λ _. tt)
                λ _. elim (Result-cases (get_verification_evidence d seed.evidence_id db)) [
                  | inl (x, e') ↦ rw (e', On) tt
                  | inr (row, e') ↦
                      elim (Result-cases
                        (integration_attempt_by_result d seed.task_id seed.task_result_id db)) [
                          | inl (x, y) ↦ rw (e', y, On) tt
                          | inr (some a, y) ↦ rw (e', y, On) here
                          | inr (none, y) ↦ rw (e', y) h
                        ]
                ])
      ]

  -- An attempt that was read is in the store.
  get-Named :
      (id : ℕ) (db : Db) (a : IntegrationAttempt)
      → get_integration_attempt d id db ≡ ok a
      → Named a db
  unfolding get_integration_attempt scan_integration_attempt
  get-Named id db a e = elim (Option-cases (find_where (by_integration id) db.integrations)) [
    | inl n ↦ let e' = rw (n, get_integration_attempt) at e in cc
    | inr (r, found) ↦ elim (Bool-cases (integration_valid d r)) [
      | inr bad ↦
          let e' = rw (found, get_integration_attempt, scan_integration_attempt, bad) at e in cc
      | inl good ↦
          let e' = rw (found, get_integration_attempt, scan_integration_attempt, good) at e in
          let same : r ≡ a = cc in
          let at = find_where-holds (by_integration id) db.integrations r found in
          let ids : id ≡ a.id = ground arith in
          record {
            row = r;
            found = subst (λ k. find_where (by_integration k) db.integrations ≡ some r) ids found;
            task = ap (λ x. x.task_id) same;
          }
    ]
  ]

  with_attempt-Reach :
      {A : Type 0} (id : ℕ) (k : IntegrationAttempt → Tx A) (db : Db)
      → ((a : IntegrationAttempt) → Named a db → On (Soon db) (k a db))
      → On (Soon db) (with_attempt d id k db)
  with_attempt-Reach id k db h = elim (Result-cases (get_integration_attempt d id db)) [
    | inl (x, e) ↦ rw (e, On) tt
    | inr (a, e) ↦ rw (e, On) (h a (get-Named id db a e))
  ]

  with_latest-Reach :
      {A : Type 0} (task : ℕ) (k : TaskResult → Tx A) (db : Db)
      → ((r : TaskResult) → On (Soon db) (k r db))
      → On (Soon db) (with_latest d task k db)
  with_latest-Reach task k db h = elim (Result-cases (latest_task_result d task db)) [
    | inl (x, e) ↦ rw (e, On) tt
    | inr (none, e) ↦ rw (e, On) tt
    | inr (some r, e) ↦ rw (e, On) (h r)
  ]

  finalize-Reach :
      (id head new_result now : ℕ) (db : Db)
      → On (Soon db) (finalize_integration_applied d id head new_result now db)
  unfolding finalize_integration_applied finalize_read
  finalize-Reach id head new_result now db =
      with_attempt-Reach id (λ a. with_latest d a.task_id (finalize_read d a head new_result now))
        db
        λ a n. with_latest-Reach a.task_id (finalize_read d a head new_result now) db λ latest.
          On-if (Soon db) (status_eq a.status integration_complete) _ _ (λ _. here)
            λ _.
              On-if (Soon db) (not (is_applied d a head latest)) _ _ (λ _. tt)
                λ _. elim (Result-cases (get_verification_evidence d a.evidence_id db)) [
                  | inl (x, e) ↦ rw (e, On) tt
                  | inr (row, e) ↦
                      rw (e, On)
                        (soon _ db λ r db' done.
                          applies a latest
                            (sealed d
                              (next_result latest new_result (noted_applied a.id head) [] true now))
                            r head now n done)
                ]

  block_read-Reach :
      (a : IntegrationAttempt) (head reason new_result now : ℕ) (latest : TaskResult) (db : Db)
      → Named a db
      → is_pending a.status ≡ true
      → On (Soon db) (block_read d a head reason new_result now latest db)
  unfolding block_read
  block_read-Reach a head reason new_result now latest db n live =
      let P = λ (_ : TaskResult) (db' : Db). Reach d digest db db' in
      let result =
        sealed d
          (next_result latest new_result (noted_attempt_blocked a.id) (reason ∷ []) false now) in
      let ends =
        close_tx d a a.status integration_blocked latest result head reason now blocked db in
      On-if P
        (not (
          same_version a.task_result_id a.task_result_version latest
          && is_result_verified latest.verdict))
        (err state_conflict) ends (λ _. tt)
        λ _. soon ends db λ r db' done. blocks a latest result r head reason now n live done

  block-Reach :
      (id head reason new_result now : ℕ) (db : Db)
      → On (Soon db) (block_integration_attempt d id head reason new_result now db)
  unfolding block_integration_attempt block_attempt_read block_read
  block-Reach id head reason new_result now db =
      let P = λ (_ : TaskResult) (db' : Db). Reach d digest db db' in
      with_attempt-Reach id (block_attempt_read d head reason new_result now) db λ a n.
        let ends = with_latest d a.task_id (block_read d a head reason new_result now) db in
        let old = with_latest d a.task_id (λ latest db'. ok (latest, db')) db in
        let dead = not (status_eq a.status prepared || status_eq a.status dispatched) in
        On-if P (status_eq a.status integration_blocked) old
          (if dead then err state_conflict else ends)
          (λ _. with_latest-Reach a.task_id (λ latest db'. ok (latest, db')) db (λ r. here))
          λ _.
            On-if P dead (err state_conflict) ends (λ _. tt)
              λ live.
                with_latest-Reach a.task_id (block_read d a head reason new_result now) db λ latest.
                  block_read-Reach a head reason new_result now latest db n
                    (pending_status a.status live)

  block_verified-Reach :
      (task reason new_result now : ℕ) (db : Db)
      → On (Soon db) (block_verified_integration d task reason new_result now db)
  unfolding block_verified_integration block_verified_read
  block_verified-Reach task reason new_result now db =
      let P = λ (_ : TaskResult) (db' : Db). Reach d digest db db' in
      with_latest-Reach task (block_verified_read d task reason new_result now) db λ latest.
        let result =
          sealed d (next_result latest new_result noted_blocked (reason ∷ []) false now) in
        let ends = block_verified_tx d task latest result now db in
        On-if P (is_result_blocked latest.integration_status) (ok (latest, db))
          (if not (is_result_verified latest.verdict) then err state_conflict else ends) (λ _. here)
          λ _.
            On-if P (not (is_result_verified latest.verdict)) (err state_conflict) ends (λ _. tt)
              λ _. soon ends db λ r db' done. blocks_verified task latest result r now done

  dispatch-Reach : (id now : ℕ) (db : Db) → On (Soon db) (mark_integration_dispatched d id now db)
  unfolding mark_integration_dispatched dispatch_read
  dispatch-Reach id now db =
      let P = λ (_ : IntegrationAttempt) (db' : Db). Reach d digest db db' in
      with_attempt-Reach id (dispatch_read d now) db λ a n.
        On-if P (status_eq a.status dispatched || status_eq a.status integration_complete) _ _
          (λ _. here)
          λ _.
            On-if P (not (status_eq a.status prepared)) _ _ (λ _. tt)
              λ _. elim (Option-cases (integration_digest d (dispatched_row d a now))) [
                | inl e ↦ rw (e, On) tt
                | inr (h, e) ↦
                    rw (e, On)
                      (On-answering (λ db'. Reach d digest db db') (dispatch_tx d a h now)
                        (record (dispatched_row d a now) { integrity_hash = h }) db
                        (soon (dispatch_tx d a h now db) db
                          (λ _ db' done. dispatches a h now n done)))
              ]

  settle-Reach :
      {A : Type 0} (db : Db) (r : Result (A × Db))
      → On (Soon db) r
      → Reach d digest db (settle db r)
  settle-Reach db (err e) h = here
  settle-Reach db (ok (a, db')) h = h

  step-Reach : (db : Db) (c : Call) → Timely db c → Reach d digest db (step db c)
  unfolding step prepare_integration_attempt prepare_blocked_verified_integration_attempt
  step-Reach db (prepares_it seed now) timely =
      let named = same_version seed.task_result_id seed.task_result_version in
      settle-Reach db (prepare_integration_attempt d seed now db) (
        prepare-Reach verified (is_candidate seed) named seed now db (
          soon (prepare_tx d verified named seed now db) db λ a db' e. prepares named seed a now e))
  step-Reach db (prepares_again seed now) timely =
      let named = is_blocked_candidate seed.task_result_id seed.task_result_version in
      settle-Reach db (prepare_blocked_verified_integration_attempt d seed now db) (
        prepare-Reach blocked (λ r. is_candidate seed r && is_result_blocked r.integration_status)
          named seed now db
          (soon (prepare_tx d blocked named seed now db) db
            λ a db' e. prepares_blocked named seed a now e))
  step-Reach db (acknowledges_it t r v now) timely =
      settle-Reach db (acknowledge_blocked_verified_integration_retry d t r v now db) (
        soon (acknowledge_blocked_verified_integration_retry d t r v now db) db
          λ _ db' e. acknowledges t r v now e)
  step-Reach db (dispatches_it id now) timely = settle-Reach db _ (dispatch-Reach id now db)
  step-Reach db (finalizes_it id head r now) timely =
      settle-Reach db _ (finalize-Reach id head r now db)
  step-Reach db (blocks_it id head reason r now) timely =
      settle-Reach db _ (block-Reach id head reason r now db)
  step-Reach db (blocks_result t reason r now) timely =
      settle-Reach db _ (block_verified-Reach t reason r now db)
  step-Reach db (cancels_it c t k p now) timely =
      settle-Reach db (request_task_cancellation digest c t k p now db) (
        soon (request_task_cancellation digest c t k p now db) db
          λ r db' e. cancels c t k p now r e)
  step-Reach db (finishes_cancelling t now) timely =
      settle-Reach db (finalize_task_cancellation t now db)
        (soon (finalize_task_cancellation t now db) db λ _ db' e. finishes t now timely e)

  pub run-Published :
      (db : Db) (cs : List Call) → AllTimely db cs → Published db → Published (run db cs)
  unfolding run
  run-Published db [] timely p = p
  run-Published db (c ∷ cs) (now_timely, timely) p =
      run-Published (step db c) cs timely
        (Reach-keeps d digest db (step db c) (step-Reach db c now_timely) p)

-- Whatever publications and cancellations are called, and in what order, from a store without
-- publications whose tasks have unique keys: once an attempt is DISPATCHED, its task is INTEGRATING,
-- so a cancelled task is not published, provided that FinalizeTaskCancellation, which does not check
-- for it, is not called on a task that is INTEGRATING.
pub run-dispatched :
    (d : Digests) (digest : TaskControl → Option ℕ) (db : Db) (cs : List Call) (id : ℕ)
    (a : IntegrationAttempt)
    → Distinct (task_ids db.tasks)
    → db.integrations ≡ []
    → AllTimely d digest db cs
    → find_where (by_integration id) (run d digest db cs).integrations ≡ some a
    → a.status ≡ dispatched
    → state_of a.task_id (run d digest db cs).tasks ≡ some integrating
run-dispatched d digest db cs id a keys none_yet timely found status =
    let p =
      run-Published d digest db cs timely (Reach-Published d digest db db keys none_yet here) in
    let h = All-found _ (by_integration id) (run d digest db cs).integrations a p.placed found in
    fits_dispatched _
      (subst (λ s. fits (state_of a.task_id (run d digest db cs).tasks) s ≡ true) status h)
