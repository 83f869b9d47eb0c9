-- ===== src/Store/Replays.antt =====
-- internal/store/sqlite.go and control.go: a request that is sent again.
use mar.Prelude.{
  ◌≡◌, ◌≢◌, refl, Bool, true, false, List, [], ◌∷◌, some, ◌==◌, arith, inl, inr, Bool-cases,
  Option-cases, any, ==_refl,
}
use mar.Sql.{find_where}
use mar.Domain.Task.{Task}
use mar.Store.{by_project, Db, ok, err, idempotency_conflict}
use mar.Store.Tasks.{submit_task, collides, by_key}

find_where-collides :
    (task again : Task) (xs : List Task) (r : Task)
    → again.idempotency_key ≡ task.idempotency_key
    → find_where (by_key task.idempotency_key) xs ≡ some r
    → any (collides again) xs ≡ true
unfolding find_where
find_where-collides task again [] r same e = cc
find_where-collides task again (x ∷ xs) r same e =
    ground (arith, find_where-collides task again xs r)

-- A row that SubmitTask stored under the key of `task`.
abbrev pub Stored : Task → Task → Db → Type 0
Stored task t db =
    (r : Task) × (find_where (by_key task.idempotency_key) db.tasks ≡ some r)
    × (r.id ≡ t.id)
    × (r.contract_hash ≡ task.contract_hash)

submit_task-Stored :
    (task t : Task) (created : Bool) (db db' : Db)
    → submit_task task db ≡ ok ((t, created), db')
    → Stored task t db'
unfolding submit_task find_where
submit_task-Stored task t created db db' h = elim (Bool-cases (any (collides task) db.tasks)) [
  | inl there ↦ elim (Option-cases (find_where (by_key task.idempotency_key) db.tasks)) [
    | inl e ↦ absurd (ground arith)
    | inr (r, e) ↦ elim (Bool-cases (r.contract_hash == task.contract_hash)) [
      | inl same ↦ (r, ground arith, ground arith, ground arith)
      | inr apart ↦ absurd (ground arith)
    ]
  ]
  | inr free ↦ elim (Bool-cases (any (by_project task.project_id) db.projects)) [
    | inl known ↦
        let self = ==_refl task.idempotency_key in
        let added : db'.tasks ≡ record task { run_epoch = 0 } ∷ db.tasks = ground arith in
        (record task { run_epoch = 0 }, rw added (ground arith), ground arith, refl)
    | inr unknown ↦ absurd (ground arith)
  ]
]

-- A task submitted again under its key answers the row that the store has under this key, which has
-- the id that was answered first, and changes nothing; under the same key with another contract it
-- is a conflict.
pub submit_task-submit_task :
    (task again t : Task) (created : Bool) (db db' : Db)
    → submit_task task db ≡ ok ((t, created), db')
    → again.idempotency_key ≡ task.idempotency_key
    → (r : Task) × (find_where (by_key again.idempotency_key) db'.tasks ≡ some r)
      × (r.id ≡ t.id)
      × (again.contract_hash ≡ task.contract_hash → submit_task again db' ≡ ok ((r, false), db'))
      × (again.contract_hash ≢ task.contract_hash
          → submit_task again db' ≡ err idempotency_conflict)
unfolding submit_task
submit_task-submit_task task again t created db db' h same =
    let (r, found, at, hash) = submit_task-Stored task t created db db' h in
    let there = find_where-collides task again db'.tasks r same found in
    let found' : find_where (by_key again.idempotency_key) db'.tasks ≡ some r = rw same found in
    (r, found', at, λ e. ground arith, λ n. ground arith)
