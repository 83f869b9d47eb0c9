-- ===== src/Store/Tame.antt =====
-- internal/store: changes of the store that give no attempt more authority than it had.
use mar.Prelude.{
  ℕ, ◌≤◌, ◌≡◌, refl, sym, subst, ◌∙◌, Bool, true, false, List, [], ◌∷◌, none, some, ◌==◌,
  if◌then◌else◌, arith, inl, inr, Bool-cases, map, Distinct,
}
use mar.Sql.{find_where, count_where, update_where}
use mar.Domain.Task.{
  Project, Task, ExecutionAttempt, AttemptAuthorityState, active, logically_fenced, terminating,
  physically_terminated,
}
use mar.Store.{Db, Error, Result, ok, err, Tx, by_id, ◌>>=◌}
use mar.Store.Tasks.{move_task, move_attempt}

-- The order in which an attempt loses its authority.
abbrev pub rank : AttemptAuthorityState → ℕ
rank active = 0
rank logically_fenced = 1
rank terminating = 2
rank physically_terminated = 3

-- `b` is `a` later: the same attempt, with no more authority.
abbrev pub Weaker : ExecutionAttempt → ExecutionAttempt → Type 0
Weaker a b =
    (b.id ≡ a.id)
    × (b.task_id ≡ a.task_id)
    × (b.run_epoch ≡ a.run_epoch)
    × (rank a.authority_state ≤ rank b.authority_state)

-- The same attempts in the same order, none with more authority.
abbrev pub Demoted : List ExecutionAttempt → List ExecutionAttempt → Type 0
Demoted [] [] = Unit
Demoted [] (b ∷ ys) = ⊥
Demoted (a ∷ xs) [] = ⊥
Demoted (a ∷ xs) (b ∷ ys) = Weaker a b × Demoted xs ys

pub Demoted-refl : (xs : List ExecutionAttempt) → Demoted xs xs
Demoted-refl [] = tt
Demoted-refl (a ∷ xs) = ((refl, refl, refl, omega arith), Demoted-refl xs)

pub Demoted-trans :
    (xs ys zs : List ExecutionAttempt) → Demoted xs ys → Demoted ys zs → Demoted xs zs
Demoted-trans [] [] [] p q = tt
Demoted-trans [] [] (c ∷ zs) p q = q
Demoted-trans [] (b ∷ ys) zs p q = absurd p
Demoted-trans (a ∷ xs) [] zs p q = absurd p
Demoted-trans (a ∷ xs) (b ∷ ys) [] p q = q
Demoted-trans (a ∷ xs) (b ∷ ys) (c ∷ zs) p q = (omega arith, Demoted-trans xs ys zs p.1 q.1)

pub Demoted-update_where :
    (hit : ExecutionAttempt → Bool) (change : ExecutionAttempt → ExecutionAttempt)
    (xs : List ExecutionAttempt)
    → ((a : ExecutionAttempt) → hit a ≡ true → Weaker a (change a))
    → Demoted xs (update_where hit change xs)
unfolding update_where
Demoted-update_where hit change [] w = tt
Demoted-update_where hit change (a ∷ xs) w =
    let rest = Demoted-update_where hit change xs w in
    elim (Bool-cases (hit a)) [
      | inl e ↦ rw e (w a e, rest)
      | inr e ↦ rw e ((refl, refl, refl, omega arith), rest)
    ]

-- The epoch of a task, 0 where there is none.
unfoldable pub epoch_of : ℕ → List Task → ℕ
epoch_of id tasks = elim (find_where (by_id id) tasks) [ none ↦ 0 | some t ↦ t.run_epoch ]

abbrev pub task_ids : List Task → List ℕ
task_ids = map (λ t. t.id)

-- No attempt gains authority, none appears or goes, every task keeps its epoch, and the primary
-- key of tasks stays unique.
pub record Tame (db db' : Db) : Type 0 where
  pub epochs : (id : ℕ) → epoch_of id db'.tasks ≡ epoch_of id db.tasks
  pub keys : Distinct (task_ids db.tasks) → Distinct (task_ids db'.tasks)
  pub attempts : Demoted db.attempts db'.attempts

pub Tame-refl : (db : Db) → Tame db db
Tame-refl db = record { epochs = λ id. refl; keys = λ d. d; attempts = Demoted-refl db.attempts }

pub Tame-trans : {a b c : Db} → Tame a b → Tame b c → Tame a c
Tame-trans p q = record {
  epochs = λ id. q.epochs id ∙ p.epochs id;
  keys = λ d. q.keys (p.keys d);
  attempts = Demoted-trans _ _ _ p.attempts q.attempts;
}

-- `P` of the store after a transaction, if it commits.
abbrev pub Leads {ℓ κ} : {A : Type ℓ} → (Db → Type κ) → Result (A × Db) → Type κ
Leads P (ok (_, db)) = P db
Leads P (err _) = Unit

-- `P` of the result and the store after a transaction, if it commits.
abbrev pub On {ℓ κ} : {A : Type ℓ} → (A → Db → Type κ) → Result (A × Db) → Type κ
On P (ok (a, db)) = P a db
On P (err _) = Unit

pub On-if {ℓ κ} :
    {A : Type ℓ} (P : A → Db → Type κ) (b : Bool) (x y : Result (A × Db))
    → (b ≡ true → On P x)
    → (b ≡ false → On P y)
    → On P (if b then x else y)
On-if P true x y p q = p refl
On-if P false x y p q = q refl

pub On-ok {ℓ κ} :
    {A : Type ℓ} (P : A → Db → Type κ) (r : Result (A × Db)) {a : A} {db : Db}
    → On P r
    → r ≡ ok (a, db)
    → P a db
On-ok P r h e = subst (On P) e h

-- A test that both branches may know of.
pub Leads-if {ℓ κ} :
    {A : Type ℓ} (P : Db → Type κ) (b : Bool) (x y : Result (A × Db))
    → (b ≡ true → Leads P x)
    → (b ≡ false → Leads P y)
    → Leads P (if b then x else y)
Leads-if P true x y p q = p refl
Leads-if P false x y p q = q refl

pub Leads->>= {ℓ κ} :
    {A : Type ℓ} {B : Type κ} (m : Tx A) (k : A → Tx B) (db : Db)
    → Leads (Tame db) (m db)
    → ((a : A) (db' : Db) → Leads (Tame db') (k a db'))
    → Leads (Tame db) ((m >>= k) db)
Leads->>= {A} {B} m k db p q = go (m db) p
  where
    go :
        (r : Result (A × Db))
        → Leads (Tame db) r
        → Leads (Tame db) (elim r [ err e ↦ err e | ok (a, db') ↦ k a db' ])
    go (err e) p = tt
    go (ok (a, db')) p = carry (k a db') (q a db')
      where
        carry : (r : Result (B × Db)) → Leads (Tame db') r → Leads (Tame db) r
        carry (err e) h = tt
        carry (ok (b, db'')) h = Tame-trans p h

epoch_of-update_where :
    (hit : Task → Bool) (change : Task → Task) (id : ℕ) (ts : List Task)
    → ((t : Task) → ((change t).id ≡ t.id) × ((change t).run_epoch ≡ t.run_epoch))
    → epoch_of id (update_where hit change ts) ≡ epoch_of id ts
unfolding epoch_of find_where update_where
epoch_of-update_where hit change id [] same = refl
epoch_of-update_where hit change id (t ∷ ts) same =
    ground (arith, same t, epoch_of-update_where hit change id ts same)

pub task_ids-update_where :
    (hit : Task → Bool) (change : Task → Task) (ts : List Task)
    → ((t : Task) → (change t).id ≡ t.id)
    → task_ids (update_where hit change ts) ≡ task_ids ts
unfolding update_where
task_ids-update_where hit change [] same = refl
task_ids-update_where hit change (t ∷ ts) same =
    ground (arith, same t, task_ids-update_where hit change ts same)

pub update_where-Tame :
    (hit : Task → Bool) (change : Task → Task) (db : Db)
    → ((t : Task) → ((change t).id ≡ t.id) × ((change t).run_epoch ≡ t.run_epoch))
    → Tame db (record db { tasks = update_where hit change db.tasks })
update_where-Tame hit change db same = record {
  epochs = λ id. epoch_of-update_where hit change id db.tasks same;
  keys = subst Distinct (sym (task_ids-update_where hit change db.tasks (λ t. (same t).0)));
  attempts = Demoted-refl db.attempts;
}

-- A change of the projects is tame.
pub projects-Tame : (ps : List Project) (db : Db) → Tame db (record db { projects = ps })
projects-Tame ps db = record {
  epochs = λ id. refl;
  keys = λ d. d;
  attempts = Demoted-refl db.attempts;
}

-- A change of tasks that keeps ids and epochs is tame.
pub move_task-Tame :
    (hit : Task → Bool) (change : Task → Task) (e : Error) (db : Db)
    → ((t : Task) → ((change t).id ≡ t.id) × ((change t).run_epoch ≡ t.run_epoch))
    → Leads (Tame db) (move_task hit change e db)
move_task-Tame hit change e db same = elim (Bool-cases (count_where hit db.tasks == 1)) [
  | inr n ↦ rw n tt
  | inl y ↦ rw y (update_where-Tame hit change db same)
]

pub move_attempt-Tame :
    (hit : ExecutionAttempt → Bool) (change : ExecutionAttempt → ExecutionAttempt) (e : Error)
    (db : Db)
    → ((a : ExecutionAttempt) → hit a ≡ true → Weaker a (change a))
    → Leads (Tame db) (move_attempt hit change e db)
move_attempt-Tame hit change e db w = elim (Bool-cases (count_where hit db.attempts == 1)) [
  | inr n ↦ rw n tt
  | inl y ↦ rw y (record {
    epochs = λ id. refl;
    keys = λ d. d;
    attempts = Demoted-update_where hit change db.attempts w;
  })
]
