-- ===== src/Store/ControlQueries.antt =====
-- internal/store/control.go: the queries for the controls of a task.
use mar.Prelude.{
  ℕ, suc, zero, ◌≤◌, ◌<◌, ◌≡◌, Bool, false, All, All-map, ◌++◌, ◌&&◌, ◌||◌, List, [], ◌∷◌, Option,
  none, some, ◌==◌, if◌then◌else◌, arith, inl, inr, Option-cases, ltb, any, ◌∙◌, ==_refl,
}
use mar.Domain.Control.{TaskControl, ControlKind, kind_eq}
use mar.Store.{Db, Result, ok, err, control_integrity}
use mar.Store.Controls.{
  integrity_valid, max_version, insert_task_control_tx, draft_control, control_collides,
}
use mar.Store.Tame.{On, On-if, On-ok}
use mar.Store.ControlReplays.{IgnoresHash}

-- ORDER BY version DESC LIMIT 1, of the rows that `hit` selects; of rows with one version the
-- first counts, and (task_id, version) is unique.
unfoldable pub latest_where : (TaskControl → Bool) → List TaskControl → Option TaskControl
latest_where hit [] = none
latest_where hit (c ∷ cs) =
    let rest = latest_where hit cs in
    if hit c
    then elim rest [ none ↦ some c | some d ↦ if ltb c.version d.version then some d else some c ]
    else rest

-- WHERE task_id = ?
abbrev pub of_task : ℕ → TaskControl → Bool
of_task task c = c.task_id == task

-- WHERE task_id = ? AND version > ?
unfoldable pub since : ℕ → ℕ → List TaskControl → List TaskControl
since task after [] = []
since task after (c ∷ cs) =
    let rest = since task after cs in
    if of_task task c && ltb after c.version then c ∷ rest else rest

unfoldable pub insert_by_version : TaskControl → List TaskControl → List TaskControl
insert_by_version c [] = c ∷ []
insert_by_version c (d ∷ ds) =
    let rest = insert_by_version c ds in if ltb d.version c.version then d ∷ rest else c ∷ d ∷ ds

-- ORDER BY version ASC
unfoldable pub by_version : List TaskControl → List TaskControl
by_version [] = []
by_version (c ∷ cs) = insert_by_version c (by_version cs)

-- LIMIT ?
unfoldable pub first_rows : ℕ → List TaskControl → List TaskControl
first_rows zero cs = []
first_rows (suc n) [] = []
first_rows (suc n) (c ∷ cs) = c ∷ first_rows n cs

abbrev pub bounded : ℕ → ℕ
bounded limit = if limit == 0 || ltb 64 limit then 32 else limit

module _ (digest : TaskControl → Option ℕ) where
  -- scanTaskControl, of a row that is there: the integrity of what is read is checked.
  abbrev scan : Option TaskControl → Result (Option TaskControl)
  scan none = ok none
  scan (some c) = if integrity_valid digest c then ok (some c) else err control_integrity

  -- LatestTaskControl; `none` is its `false`.
  unfoldable pub latest_task_control : ℕ → Db → Result (Option TaskControl)
  latest_task_control task db = scan (latest_where (of_task task) db.controls)

  -- LatestTaskControlByKind
  unfoldable pub latest_task_control_by_kind : ℕ → ControlKind → Db → Result (Option TaskControl)
  latest_task_control_by_kind task kind db =
      scan (latest_where (λ c. of_task task c && kind_eq c.kind kind) db.controls)

  -- The rows that `rows.Next` yields, each scanned.
  abbrev scan_all : List TaskControl → Result (List TaskControl)
  scan_all [] = ok []
  scan_all (c ∷ cs) =
      let rest = scan_all cs in
      if integrity_valid digest c
      then elim rest [ err e ↦ err e | ok ds ↦ ok (c ∷ ds) ]
      else err control_integrity

  -- ControlsSince
  unfoldable pub controls_since : ℕ → ℕ → ℕ → Db → Result (List TaskControl)
  controls_since task after limit db =
      scan_all (first_rows (bounded limit) (by_version (since task after db.controls)))

latest_where-max :
    (task : ℕ) (cs : List TaskControl) (d : TaskControl)
    → latest_where (of_task task) cs ≡ some d
    → d.version ≤ max_version task cs
unfolding latest_where max_version
latest_where-max task [] d e = cc
latest_where-max task (c ∷ cs) d e = elim (Option-cases (latest_where (of_task task) cs)) [
  | inl n ↦ ground arith
  | inr (r, f) ↦ let below = latest_where-max task cs r f in ground arith
]

max_version-bound :
    (task : ℕ) (cs : List TaskControl)
    → All (λ c. c.task_id ≡ task → c.version ≤ max_version task cs) cs
unfolding max_version
max_version-bound task [] = tt
max_version-bound task (c ∷ cs) = (
  λ e. let self = ==_refl task in ground arith,
  All-map cs (λ d below e. let b = below e in ground arith) (max_version-bound task cs),
)

-- The newest row of the task is found behind rows of other tasks.
latest_where-newest :
    (c : TaskControl) (others cs : List TaskControl)
    → All (λ d. (d.task_id == c.task_id) ≡ false) others
    → max_version c.task_id cs < c.version
    → latest_where (of_task c.task_id) (others ++ c ∷ cs) ≡ some c
unfolding latest_where
latest_where-newest c [] cs apart above =
    let self = ==_refl c.task_id in
    elim (Option-cases (latest_where (of_task c.task_id) cs)) [
      | inl n ↦ ground arith
      | inr (d, f) ↦ let below = latest_where-max c.task_id cs d f in ground arith
    ]
latest_where-newest c (d ∷ others) cs apart above =
    let rest = latest_where-newest c others cs apart.1 above in let other = apart.0 in ground arith

-- `c` was added as the newest control of the task, and what follows it is of other tasks.
newest_is_latest :
    (digest : TaskControl → Option ℕ) (c : TaskControl) (db : Db) (others cs : List TaskControl)
    → db.controls ≡ others ++ c ∷ cs
    → All (λ d. (d.task_id == c.task_id) ≡ false) others
    → max_version c.task_id cs < c.version
    → digest c ≡ some c.integrity_hash
    → latest_task_control digest c.task_id db ≡ ok (some c)
unfolding latest_task_control latest_where integrity_valid
newest_is_latest digest c db others cs e apart above hashed =
    let hash = ==_refl c.integrity_hash in
    let found = latest_where-newest c others cs apart above in rw (e, found) (ground arith)

-- What is so of a control `c` that was written to `db`, which became `db'`.
abbrev Newest : (TaskControl → Option ℕ) → ℕ → Db → TaskControl → Db → Type 0
Newest digest task db c db' =
    All (λ d. d.task_id ≡ task → d.version < c.version) db.controls
    × ((later : Db) (others : List TaskControl)
        → later.controls ≡ others ++ db'.controls
        → All (λ d. (d.task_id == task) ≡ false) others
        → latest_task_control digest task later ≡ ok (some c))

insert_task_control_tx-Newest :
    (digest : TaskControl → Option ℕ) (control task key : ℕ) (kind : ControlKind) (payload now : ℕ)
    (db : Db)
    → IgnoresHash digest
    → On
        (Newest digest task db)
        (insert_task_control_tx digest control task key kind payload now db)
unfolding insert_task_control_tx
insert_task_control_tx-Newest digest control task key kind payload now db ignores =
    let draft = draft_control control task key kind payload now db in
    elim (Option-cases (digest draft)) [
      | inl e ↦ rw (e, On, insert_task_control_tx) tt
      | inr (h, e) ↦
          rw (e, On, insert_task_control_tx)
            (On-if (Newest digest task db) (any (control_collides draft) db.controls) _ _ (λ _. tt)
              λ _. (
                All-map db.controls (λ d below same. let b = below same in omega arith)
                    (max_version-bound task db.controls),
                λ later others follow apart.
                    newest_is_latest digest (record draft { integrity_hash = h }) later others
                      db.controls follow apart (omega arith) (ignores draft h ∙ e),
              ))
    ]

-- A control that is written has a version above those of all earlier controls of the task, and it
-- is the one that LatestTaskControl answers, as long as only controls of other tasks are added; the
-- digest must not read the hash.
pub insert_task_control_tx-latest :
    (digest : TaskControl → Option ℕ) (control task key : ℕ) (kind : ControlKind) (payload now : ℕ)
    (c : TaskControl) (db db' later : Db) (others : List TaskControl)
    → IgnoresHash digest
    → insert_task_control_tx digest control task key kind payload now db ≡ ok (c, db')
    → later.controls ≡ others ++ db'.controls
    → All (λ d. (d.task_id == task) ≡ false) others
    → All (λ d. d.task_id ≡ task → d.version < c.version) db.controls
      × (latest_task_control digest task later ≡ ok (some c))
insert_task_control_tx-latest digest control task key kind payload now c db db' later others ignores
      h follow apart =
    let newest =
      On-ok (Newest digest task db) _
        (insert_task_control_tx-Newest digest control task key kind payload now db ignores) h in
    (newest.0, newest.1 later others follow apart)
