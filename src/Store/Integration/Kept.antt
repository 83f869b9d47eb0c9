-- ===== src/Store/Integration/Kept.antt =====
-- internal/store/integration.go and control.go: each transaction keeps publications and their tasks
-- together.
use mar.Prelude.{
  ℕ, ◌≡◌, refl, sym, subst, Bool, true, false, ◌||◌, not, List, ◌∷◌, Option, none, some, ◌==◌,
  arith, inl, inr, Bool-cases, Option-cases, any, Distinct,
}
use mar.Sql.{find_where, count_where, update_where}
use mar.Domain.Task.{
  Task, TaskState, state_eq, state_eq_iff, ready_to_integrate, integrating, cancelled, verified,
  blocked,
}
use mar.Domain.Integration.{
  IntegrationStatus, prepared, dispatched, integration_complete, integration_blocked,
  IntegrationAttempt, TaskResult,
}
use mar.Store.{Db, Error, Result, Result-cases, ok, err, Tx, set_state, ◌>>◌, state_conflict}
use mar.Store.Tasks.{move_task}
use mar.Store.Tame.{On, On-if, On-ok, task_ids}
use mar.Store.Integration.{
  Digests, by_integration, at_status, at_state, integration_collides, integration_refers, unless,
  answering, move_integration, latest_result, draft_integration, result_collides, result_refers,
}
use mar.Store.Integration.Calls.{
  to_dispatched, to_ended, insert_integration, insert_prepared, integration_digest, prepare_tx,
  dispatch_tx, close_rows, close_tx, end_attempt, close_error, block_verified_error, block_rows,
  prepare_error, prepared_rows, acknowledge_error, acknowledge_blocked_verified_integration_retry,
  get_integration_attempt, scan_integration_attempt, integration_valid, latest_task_result,
  with_attempt, with_latest, state_at, ended_row, insert_integration_result_tx, result_valid,
  block_verified_tx,
}
use mar.Store.Integration.Places.{is_pending, fits, Published, Moves, update_where-Moves}
use mar.Store.Integration.Moves.{Named, rows-Published, task-Published, insert-Published}

pub On-map {ℓ κ μ} :
    {A : Type ℓ} (P : A → Db → Type κ) (Q : A → Db → Type μ) (r : Result (A × Db))
    → ((a : A) (db : Db) → P a db → Q a db)
    → On P r
    → On Q r
On-map P Q (err e) f h = tt
On-map P Q (ok (a, db)) f h = f a db h

module _ {ℓ κ} {A : Type ℓ} (Q : A → Db → Type κ) where
  pub On-then {μ} :
      (P : Db → Type μ) (m : Tx (Unit {0})) (k : Tx A) (db : Db)
      → On (λ _ db'. P db') (m db)
      → ((db' : Db) → P db' → On Q (k db'))
      → On Q ((m >> k) db)
  On-then P m k db h rest = elim (Result-cases (m db)) [
    | inl (e, eq) ↦ rw (eq, On) tt
    | inr ((u, db'), eq) ↦ rw (eq, On) (rest db' (On-ok (λ _ d. P d) (m db) h eq))
  ]

  pub On-unless : (o : Option Error) (k : Tx A) (db : Db) → On Q (k db) → On Q (unless o k db)
  On-unless none k db h = h
  On-unless (some e) k db h = tt

pub On-answers {ℓ κ} :
    {A : Type ℓ} (P : Db → Type κ) (m : Tx (Unit {0})) (a : A) (db : Db)
    → On (λ _ db'. P db') (m db)
    → On (λ r db'. (r ≡ a) × P db') (answering m a db)
On-answers P m a db h =
    On-then (λ r db'. (r ≡ a) × P db') P m (λ db'. ok (a, db')) db h (λ db' p. (refl, p))

pub On-answering {ℓ κ} :
    {A : Type ℓ} (P : Db → Type κ) (m : Tx (Unit {0})) (a : A) (db : Db)
    → On (λ _ db'. P db') (m db)
    → On (λ _ db'. P db') (answering m a db)
On-answering P m a db h =
    On-map (λ r db'. (r ≡ a) × P db') (λ _ db'. P db') (answering m a db) (λ _ _ q. q.1)
      (On-answers P m a db h)

module _ {κ} (d : Digests) {A : Type 0} (Q : A → Db → Type κ) where
  -- The attempt that a call reads, where the store has one with that key.
  pub with_attempt-On :
      (id : ℕ) (a : IntegrationAttempt) (k : IntegrationAttempt → Tx A) (db : Db)
      → find_where (by_integration id) db.integrations ≡ some a
      → On Q (k a db)
      → On Q (with_attempt d id k db)
  unfolding get_integration_attempt scan_integration_attempt
  with_attempt-On id a k db found h = elim (Bool-cases (integration_valid d a)) [
    | inl y ↦ rw (found, y, On) h
    | inr n ↦ rw (found, n, On) tt
  ]

  pub with_latest-On :
      (task : ℕ) (k : TaskResult → Tx A) (db : Db)
      → ((r : TaskResult) → latest_result task db.results ≡ some r → On Q (k r db))
      → On Q (with_latest d task k db)
  unfolding latest_task_result
  with_latest-On task k db h = elim (Option-cases (latest_result task db.results)) [
    | inl e ↦ rw (e, On) tt
    | inr (r, e) ↦ elim (Bool-cases (result_valid d r)) [
      | inl y ↦ rw (e, y, On) (h r e)
      | inr n ↦ rw (e, n, On) tt
    ]
  ]

-- A store whose tasks alone changed, one of them from one state to another.
pub record TaskMoved (task : ℕ) (from to : TaskState) (db db' : Db) : Type 0 where
  pub tasks : List Task
  pub same : db' ≡ record db { tasks = tasks }
  pub moves : Moves task from to db.tasks tasks

pub move_task-TaskMoved :
    (f : Task → Task) (task : ℕ) (from to : TaskState) (e : Error) (db : Db)
    → ((t : Task) → ((f t).id ≡ t.id) × (t.state ≡ from → (f t).state ≡ to))
    → Distinct (task_ids db.tasks)
    → On (λ _ db'. TaskMoved task from to db db') (move_task (at_state task from) f e db)
move_task-TaskMoved f task from to e db keep keys =
    On-if (λ _ db'. TaskMoved task from to db db') (count_where (at_state task from) db.tasks == 1)
      _ _
      (λ one. record {
        tasks = update_where (at_state task from) f db.tasks;
        same = refl;
        moves =
            update_where-Moves (at_state task from) f task from to db.tasks
              (λ t h. (ground arith, (state_eq_iff t.state from).0 (ground arith))) keep keys one;
      })
      (λ _. tt)

-- An attempt that was read goes on with its task.
pub two_rows-Published :
    (want : IntegrationStatus) (f : IntegrationAttempt → IntegrationAttempt) (from to : TaskState)
    (now : ℕ) (a : IntegrationAttempt) (db : Db)
    → is_pending want ≡ true
    → ((x : IntegrationAttempt) → ((f x).id ≡ x.id) × ((f x).task_id ≡ x.task_id))
    → ((x : IntegrationAttempt) → fits (some to) (f x).status ≡ true)
    → Named a db
    → Published db
    → On
        (λ _ db'. Published db')
        ((move_integration (at_status a.id want) f
            >> move_task (at_state a.task_id from) (set_state to now) state_conflict)
          db)
two_rows-Published want f from to now a db pending keep place n p =
    let hit = at_status a.id want in
    On-then (λ _ db'. Published db')
      (λ db'.
        (db' ≡ record db { integrations = update_where hit f db.integrations })
        × ((count_where hit db.integrations == 1) ≡ true))
      (move_integration hit f)
      (move_task (at_state a.task_id from) (set_state to now) state_conflict) db
      (On-if (λ _ db'. _) (count_where hit db.integrations == 1) _ _ (λ one. (refl, one)) (λ _. tt))
      (λ db' (same, one).
        subst
          (λ d.
            On (λ _ d'. Published d')
              (move_task (at_state a.task_id from) (set_state to now) state_conflict d))
          (sym same)
          (On-map _ (λ _ d'. Published d') _
            (λ _ d' moved. subst Published (sym moved.same) (
              rows-Published want f from to a db moved.tasks pending keep place n one moved.moves
                p))
            (move_task-TaskMoved (set_state to now) a.task_id from to state_conflict
              (record db { integrations = update_where hit f db.integrations })
              (λ t. (refl, λ _. refl)) p.keys)))

-- The task alone goes on.
pub one_task-Published :
    (f : Task → Task) (task : ℕ) (from to : TaskState) (e : Error) (db : Db)
    → ((t : Task) → ((f t).id ≡ t.id) × (t.state ≡ from → (f t).state ≡ to))
    → ((s : IntegrationStatus) → fits (some from) s ≡ true → fits (some to) s ≡ true)
    → Published db
    → On (λ _ db'. Published db') (move_task (at_state task from) f e db)
one_task-Published f task from to e db keep safe p =
    On-map _ (λ _ d'. Published d') _
      (λ _ d' moved.
        subst Published (sym moved.same)
          (task-Published task from to db moved.tasks safe moved.moves p))
      (move_task-TaskMoved f task from to e db keep p.keys)

-- What does not touch tasks and publications keeps them.
pub elsewhere-Published :
    (db db' : Db)
    → db'.tasks ≡ db.tasks
    → db'.integrations ≡ db.integrations
    → Published db
    → Published db'
elsewhere-Published db db' t i p = record {
  keys = rw t p.keys;
  ids = λ k. rw i (p.ids k);
  single = λ k. rw i (p.single k);
  placed = rw (t, i) p.placed;
}

pub elsewhere-Named :
    (a : IntegrationAttempt) (db db' : Db)
    → db'.integrations ≡ db.integrations
    → Named a db
    → Named a db'
elsewhere-Named a db db' i n = record { row = n.row; found = rw i n.found; task = n.task }

-- What an attempt of a task may be while the task is VERIFIED or BLOCKED: ended.
unfoldable pub is_idle : TaskState → Bool
is_idle s = not (state_eq s ready_to_integrate || state_eq s integrating || state_eq s cancelled)

pub idle_ended :
    (from : TaskState) (s : IntegrationStatus)
    → is_idle from ≡ true
    → fits (some from) s ≡ true
    → is_pending s ≡ false
unfolding is_idle
idle_ended from prepared i h = ground arith
idle_ended from dispatched i h = ground arith
idle_ended from integration_complete i h = refl
idle_ended from integration_blocked i h = refl

pub verified_idle :
    (to : TaskState) (s : IntegrationStatus)
    → fits (some verified) s ≡ true
    → fits (some to) s ≡ true
unfolding state_eq
verified_idle to prepared h = cc
verified_idle to dispatched h = cc
verified_idle to integration_complete h = refl
verified_idle to integration_blocked h = refl

module _ (d : Digests) where
  pub dispatch_tx-Published :
      (a : IntegrationAttempt) (hash now : ℕ) (db : Db)
      → Named a db
      → Published db
      → On (λ _ db'. Published db') (dispatch_tx d a hash now db)
  unfolding dispatch_tx state_eq
  dispatch_tx-Published a hash now db n p =
      two_rows-Published prepared (to_dispatched hash now) ready_to_integrate integrating now a db
        refl (λ x. (refl, refl)) (λ x. refl) n p

  -- The insertion of a result does not touch tasks and publications.
  insert_result-same :
      (r : TaskResult) (db : Db)
      → On
          (λ _ db'. (db'.tasks ≡ db.tasks) × (db'.integrations ≡ db.integrations))
          (insert_integration_result_tx d r db)
  unfolding insert_integration_result_tx
  insert_result-same r db =
      let P = λ (_ : Unit {0}) (db' : Db).
        (db'.tasks ≡ db.tasks) × (db'.integrations ≡ db.integrations) in
      On-if P (not (result_valid d r)) _ _ (λ _. tt)
        λ _.
          On-if P (any (result_collides r) db.results || not (result_refers r db)) _ _ (λ _. tt)
            (λ _. (refl, refl))

  pub insert_result-then :
      {A : Type 0} (r : TaskResult) (k : Tx A) (db : Db)
      → Published db
      → ((db' : Db)
          → db'.integrations ≡ db.integrations
          → Published db'
          → On (λ _ d'. Published d') (k db'))
      → On (λ _ db'. Published db') ((insert_integration_result_tx d r >> k) db)
  insert_result-then r k db p rest =
      On-then (λ _ db'. Published db') _ (insert_integration_result_tx d r) k db
        (insert_result-same r db) (λ db' (t, i). rest db' i (elsewhere-Published db db' t i p))

  end_attempt-Published :
      (a : IntegrationAttempt) (want to : IntegrationStatus) (result : TaskResult)
      (head failure now : ℕ) (end : TaskState) (db : Db)
      → is_pending want ≡ true
      → ((s : TaskState) → fits (some s) to ≡ true)
      → Named a db
      → Published db
      → On (λ _ db'. Published db') (end_attempt d a want to result head failure now end db)
  unfolding end_attempt close_rows
  end_attempt-Published a want to result head failure now end db pending place n p =
      elim (Option-cases (integration_digest d (ended_row d a to head failure now))) [
        | inl e ↦ rw (e, On) tt
        | inr (h, e) ↦
            let rows =
              two_rows-Published want (to_ended to head failure h now) (state_at d want) end now a
                db pending (λ x. (refl, refl)) (λ x. place end) n p in
            rw (e, On)
              (On-answering Published
                (close_rows d a want to head failure h now (state_at d want) end) result db rows)
      ]

  pub close_tx-Published :
      (a : IntegrationAttempt) (want to : IntegrationStatus) (latest result : TaskResult)
      (head failure now : ℕ) (end : TaskState) (db : Db)
      → is_pending want ≡ true
      → ((s : TaskState) → fits (some s) to ≡ true)
      → Named a db
      → Published db
      → On (λ _ db'. Published db') (close_tx d a want to latest result head failure now end db)
  unfolding close_tx
  close_tx-Published a want to latest result head failure now end db pending place n p =
      On-unless (λ _ db'. Published db') (close_error d a want latest db)
        (insert_integration_result_tx d result
          >> end_attempt d a want to result head failure now end)
        db
        (insert_result-then result (end_attempt d a want to result head failure now end) db p
          λ db' i p'.
            end_attempt-Published a want to result head failure now end db' pending place
              (elsewhere-Named a db db' i n) p')

  pub block_verified_tx-Published :
      (task : ℕ) (latest result : TaskResult) (now : ℕ) (db : Db)
      → Published db
      → On (λ _ db'. Published db') (block_verified_tx d task latest result now db)
  unfolding block_verified_tx state_eq
  block_verified_tx-Published task latest result now db p =
      On-unless (λ _ db'. Published db') (block_verified_error d task latest db)
        (answering (block_rows d task result now) result) db
        (On-answering Published (block_rows d task result now) result db (
          insert_result-then result
            (move_task (at_state task verified) (set_state blocked now) state_conflict) db p
            λ db' i p'.
              one_task-Published (set_state blocked now) task verified blocked state_conflict db'
                (λ t. (refl, λ _. refl)) (verified_idle blocked) p'))

  insert_integration-Inserted :
      (row : IntegrationAttempt) (db : Db)
      → On
          (λ _ db'.
            (db' ≡ record db { integrations = row ∷ db.integrations })
            × (any (integration_collides row) db.integrations ≡ false))
          (insert_integration d row db)
  insert_integration-Inserted row db =
      On-if _ (any (integration_collides row) db.integrations || not (integration_refers row db)) _
        _ (λ _. tt) (λ ok. (refl, ground arith))

  prepared_rows-Published :
      (from : TaskState) (row : IntegrationAttempt) (now : ℕ) (db : Db)
      → ((s : IntegrationStatus) → fits (some from) s ≡ true → is_pending s ≡ false)
      → row.status ≡ prepared
      → Published db
      → On (λ _ db'. Published db') (prepared_rows d from row now db)
  prepared_rows-Published from row now db idle status p =
      On-then (λ _ db'. Published db') _ (insert_integration d row)
        (move_task (at_state row.task_id from) (set_state ready_to_integrate now) state_conflict) db
        (insert_integration-Inserted row db)
        λ db' (same, fresh).
          subst
            (λ x.
              On (λ _ d'. Published d')
                (move_task (at_state row.task_id from) (set_state ready_to_integrate now)
                  state_conflict x))
            (sym same)
            (On-map _ (λ _ d'. Published d') _
              (λ _ d' moved.
                subst Published (sym moved.same)
                  (insert-Published from row db moved.tasks idle status fresh moved.moves p))
              (move_task-TaskMoved (set_state ready_to_integrate now) row.task_id from
                ready_to_integrate state_conflict
                (record db { integrations = row ∷ db.integrations }) (λ t. (refl, λ _. refl))
                p.keys))

  pub prepare_tx-Published :
      (from : TaskState) (fit : TaskResult → Bool) (seed : IntegrationAttempt) (now : ℕ) (db : Db)
      → ((s : IntegrationStatus) → fits (some from) s ≡ true → is_pending s ≡ false)
      → Published db
      → On (λ _ db'. Published db') (prepare_tx d from fit seed now db)
  unfolding prepare_tx insert_prepared
  prepare_tx-Published from fit seed now db idle p =
      let draft = draft_integration seed now db in
      On-unless (λ _ db'. Published db') (prepare_error d from fit seed db)
        (insert_prepared d from draft now) db
        (elim (Option-cases (integration_digest d draft)) [
          | inl e ↦ rw (e, On) tt
          | inr (h, e) ↦
              let row = record draft { integrity_hash = h } in
              let rows = prepared_rows-Published from row now db idle refl p in
              rw (e, On) (On-answering Published (prepared_rows d from row now) row db rows)
        ])

  pub acknowledge-Published :
      (task result version now : ℕ) (db : Db)
      → Published db
      → On
          (λ _ db'. Published db')
          (acknowledge_blocked_verified_integration_retry d task result version now db)
  unfolding acknowledge_blocked_verified_integration_retry
  acknowledge-Published task result version now db p =
      On-unless (λ _ db'. Published db') (acknowledge_error d task result version db)
        (move_task (at_state task blocked) (λ t. record t { updated_at = now }) state_conflict) db
        (one_task-Published (λ t. record t { updated_at = now }) task blocked blocked state_conflict
          db (λ t. (refl, λ e. e)) (λ s h. h) p)
