-- ===== src/Store/Projects.antt =====
-- internal/store/sqlite.go: the registered projects. `clean` is filepath.Clean. Of the rows that
-- refer to a project those of tasks are modelled, and the policy that DeleteProject removes is not.
use mar.Prelude.{
  ℕ, ◌≡◌, Bool, true, false, ◌||◌, not, List, [], ◌∷◌, none, some, ◌==◌, if◌then◌else◌, arith, inl,
  inr, Bool-cases, Option-cases, any, ltb,
}
use mar.Sql.{find_where, count_where}
use mar.Domain.Task.{Project, Task}
use mar.Store.Tasks.{submit_task, collides, by_key}
use mar.Store.Tame.{On, On-if}
use mar.Store.{
  Result-cases, Db, Result, ok, err, Tx, done, by_project, not_found, project_conflict,
  constraint_failed,
}

-- GetProject
unfoldable pub get_project : ℕ → Db → Result Project
get_project id db = elim (find_where (by_project id) db.projects) [
  | none ↦ err not_found
  | some p ↦ ok p
]

-- A row with the primary key or the unique root of the project.
abbrev pub project_collides : Project → Project → Bool
project_collides new p = p.id == new.id || p.root == new.root

-- RegisterProject: INSERT OR IGNORE skips a row that collides.
unfoldable pub register_project : (ℕ → ℕ) → Project → Tx (Project × Bool)
register_project clean p db =
    if not (any (project_collides p) db.projects)
    then ok ((p, true), record db { projects = p ∷ db.projects })
    else elim (get_project p.id db) [
      | err e ↦ err e
      | ok existing ↦
          if clean existing.root == clean p.root
          then ok ((existing, false), db)
          else err project_conflict
    ]

-- DELETE FROM projects WHERE id = ?
unfoldable pub delete_rows : ℕ → List Project → List Project
delete_rows id [] = []
delete_rows id (p ∷ ps) = let rest = delete_rows id ps in if by_project id p then rest else p ∷ rest

abbrev pub refers : ℕ → Task → Bool
refers id t = t.project_id == id

-- DeleteProject: the foreign key of tasks refuses a project that one refers to.
unfoldable pub delete_project : ℕ → Tx (Unit {0})
delete_project id db =
    if count_where (by_project id) db.projects == 0
    then err not_found
    else if any (refers id) db.tasks
    then err constraint_failed
    else done (record db { projects = delete_rows id db.projects })

unfoldable pub insert_by_id : Project → List Project → List Project
insert_by_id p [] = p ∷ []
insert_by_id p (q ∷ qs) =
    let rest = insert_by_id p qs in if ltb q.id p.id then q ∷ rest else p ∷ q ∷ qs

unfoldable pub order_by_id : List Project → List Project
order_by_id [] = []
order_by_id (p ∷ ps) = insert_by_id p (order_by_id ps)

-- ListProjects; identifiers are in the order of their texts.
unfoldable pub list_projects : Db → List Project
list_projects db = order_by_id db.projects

-- The tasks of the store refer to registered projects.
unfoldable pub AllRegistered : List Project → List Task → Type 0
AllRegistered ps [] = Unit
AllRegistered ps (t ∷ ts) = (any (by_project t.project_id) ps ≡ true) × AllRegistered ps ts

any-delete_rows :
    (id other : ℕ) (ps : List Project)
    → (other == id) ≡ false
    → any (by_project other) ps ≡ true
    → any (by_project other) (delete_rows id ps) ≡ true
unfolding delete_rows
any-delete_rows id other [] n h = h
any-delete_rows id other (p ∷ ps) n h = ground (arith, any-delete_rows id other ps n)

AllRegistered-delete_rows :
    (id : ℕ) (ps : List Project) (ts : List Task)
    → any (refers id) ts ≡ false
    → AllRegistered ps ts
    → AllRegistered (delete_rows id ps) ts
unfolding AllRegistered
AllRegistered-delete_rows id ps [] h r = tt
AllRegistered-delete_rows id ps (t ∷ ts) h r = (
  any-delete_rows id t.project_id ps (ground arith) r.0,
  AllRegistered-delete_rows id ps ts (ground arith) r.1,
)

AllRegistered-more :
    (p : Project) (ps : List Project) (ts : List Task)
    → AllRegistered ps ts
    → AllRegistered (p ∷ ps) ts
unfolding AllRegistered
AllRegistered-more p ps [] r = tt
AllRegistered-more p ps (t ∷ ts) r = (ground (arith, r.0), AllRegistered-more p ps ts r.1)

-- RegisterProject keeps every task with its project.
pub register_project-AllRegistered :
    (clean : ℕ → ℕ) (p : Project) (db : Db)
    → AllRegistered db.projects db.tasks
    → On (λ _ db'. AllRegistered db'.projects db'.tasks) (register_project clean p db)
unfolding register_project
register_project-AllRegistered clean p db r =
    let P = λ (_ : Project × Bool) (db' : Db). AllRegistered db'.projects db'.tasks in
    On-if P (not (any (project_collides p) db.projects)) _ _
      (λ _. AllRegistered-more p db.projects db.tasks r)
      λ _. elim (Result-cases (get_project p.id db)) [
        | inl (x, e) ↦ rw (e, On) tt
        | inr (q, e) ↦ rw (e, On) (On-if P (clean q.root == clean p.root) _ _ (λ _. r) (λ _. tt))
      ]

-- SubmitTask keeps every task with its project.
pub submit_task-AllRegistered :
    (task : Task) (db : Db)
    → AllRegistered db.projects db.tasks
    → On (λ _ db'. AllRegistered db'.projects db'.tasks) (submit_task task db)
unfolding submit_task AllRegistered
submit_task-AllRegistered task db r =
    let P = λ (_ : Task × Bool) (db' : Db). AllRegistered db'.projects db'.tasks in
    On-if P (any (collides task) db.tasks) _ _
      (λ _. elim (Option-cases (find_where (by_key task.idempotency_key) db.tasks)) [
        | inl e ↦ rw (e, On) tt
        | inr (x, e) ↦
            rw (e, On) (On-if P (x.contract_hash == task.contract_hash) _ _ (λ _. r) (λ _. tt))
      ])
      λ _.
        On-if P (any (by_project task.project_id) db.projects) _ _ (λ known. (known, r)) (λ _. tt)

-- Where every task refers to a registered project, DeleteProject keeps it so.
delete_project-AllRegistered :
    (id : ℕ) (db db' : Db)
    → AllRegistered db.projects db.tasks
    → delete_project id db ≡ ok (tt, db')
    → AllRegistered db'.projects db'.tasks
unfolding delete_project
delete_project-AllRegistered id db db' r h = elim (Bool-cases (any (refers id) db.tasks)) [
  | inl y ↦ absurd (ground arith)
  | inr n ↦
      let kept = AllRegistered-delete_rows id db.projects db.tasks n r in
      let projects : db'.projects ≡ delete_rows id db.projects = ground arith in
      let tasks : db'.tasks ≡ db.tasks = ground arith in rw (projects, tasks) kept
]
