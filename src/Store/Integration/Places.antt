-- ===== src/Store/Integration/Places.antt =====
-- internal/store/integration.go: where a publication and its task stand together.
use mar.Prelude.{
  ℕ, ◌≤◌, ◌≡◌, refl, ap, sym, subst, ◌∙◌, Bool, true, false, ◌&&◌, ◌||◌, List, [], ◌∷◌, Option,
  none, some, ◌==◌, arith, inl, inr, Bool-cases, All, All-map, Distinct,
}
use mar.Sql.{find_where, count_where, update_where}
use mar.Domain.Task.{Task, TaskState, state_eq, ready_to_integrate, integrating, cancelled}
use mar.Domain.Integration.{
  IntegrationStatus, prepared, dispatched, integration_complete, integration_blocked,
  IntegrationAttempt,
}
use mar.Store.{Db, by_id}
use mar.Sql.Keys.{count_where-any, row_of_key}
use mar.Store.Tame.{task_ids, task_ids-update_where}
use mar.Store.Integration.{by_integration}

-- The state of a task, where it has a row.
unfoldable pub state_of : ℕ → List Task → Option TaskState
state_of id ts = elim (find_where (by_id id) ts) [ none ↦ none | some t ↦ some t.state ]

abbrev pub is_pending : IntegrationStatus → Bool
is_pending prepared = true
is_pending dispatched = true
is_pending _ = false

-- A publication that has not ended and its task: a PREPARED one waits for a task that is ready, or
-- that was cancelled meanwhile; the task of a DISPATCHED one is being integrated.
abbrev pub fits : Option TaskState → IntegrationStatus → Bool
fits (some s) prepared = state_eq s ready_to_integrate || state_eq s cancelled
fits (some s) dispatched = state_eq s integrating
fits none prepared = false
fits none dispatched = false
fits _ integration_complete = true
fits _ integration_blocked = true

abbrev pub Placed : List Task → IntegrationAttempt → Type 0
Placed ts a = fits (state_of a.task_id ts) a.status ≡ true

abbrev pub pending_of : ℕ → IntegrationAttempt → Bool
pending_of task a = a.task_id == task && is_pending a.status

-- Every publication and its task stand together, a task has one at most that has not ended, and
-- the keys are unique.
pub record Published (db : Db) : Type 0 where
  pub keys : Distinct (task_ids db.tasks)
  pub ids : (k : ℕ) → count_where (by_integration k) db.integrations ≤ 1
  pub single : (task : ℕ) → count_where (pending_of task) db.integrations ≤ 1
  pub placed : All (Placed db.tasks) db.integrations

module _ {ℓ} {R : Type ℓ} where
  count_where-none : (p : R → Bool) (xs : List R) → count_where p xs ≡ 0 → All (λ x. p x ≡ false) xs
  unfolding count_where
  count_where-none p [] h = tt
  count_where-none p (x ∷ xs) h = elim (Bool-cases (p x)) [
    | inl y ↦ let h' = rw y at h in absurd (omega arith)
    | inr n ↦ let h' = rw n at h in (n, count_where-none p xs h')
  ]

  pub count_where-update_where :
      (q hit : R → Bool) (f : R → R) (xs : List R)
      → ((x : R) → hit x ≡ true → q (f x) ≡ true → q x ≡ true)
      → count_where q (update_where hit f xs) ≤ count_where q xs
  unfolding count_where update_where
  count_where-update_where q hit f [] keep = omega arith
  count_where-update_where q hit f (x ∷ xs) keep =
      ground (arith, keep x, count_where-update_where q hit f xs keep)

  found-counted :
      (p q : R → Bool) (xs : List R) (a : R)
      → find_where p xs ≡ some a
      → q a ≡ true
      → 1 ≤ count_where q xs
  unfolding count_where find_where
  found-counted p q [] a e h = cc
  found-counted p q (x ∷ xs) a e h = ground (arith, found-counted p q xs a)

  -- Where `q` holds of one row at most, it is the row that a query with `p` finds, if `q` holds
  -- of that.
  pub only_row :
      (p q : R → Bool) (xs : List R) (a : R)
      → count_where q xs ≤ 1
      → find_where p xs ≡ some a
      → q a ≡ true
      → All (λ x. q x ≡ true → x ≡ a) xs
  unfolding count_where find_where
  only_row p q [] a h e qa = tt
  only_row p q (x ∷ xs) a h e qa = elim (Bool-cases (p x)) [
    | inl y ↦
        let same : x ≡ a = ground arith in
        let qx = subst (λ z. q z ≡ true) (sym same) qa in
        let h' = rw qx at h in
        let rest = count_where-none q xs (omega arith) in
        (λ _. same, All-map xs (λ z no yes. absurd (ground arith)) rest)
    | inr n ↦
        let e' = rw n at e in
        let some_one = found-counted p q xs a e' qa in
        (λ qx. absurd (ground arith), only_row p q xs a (ground arith) e' qa)
  ]

-- An UPDATE that takes one task from one state to another.
pub record Moves (task : ℕ) (from to : TaskState) (ts ts' : List Task) : Type 0 where
  pub keys : Distinct (task_ids ts')
  pub before : state_of task ts ≡ some from
  pub after : state_of task ts' ≡ some to
  pub others : (id : ℕ) → (id == task) ≡ false → state_of id ts' ≡ state_of id ts

state_of-other :
    (hit : Task → Bool) (f : Task → Task) (task id : ℕ) (ts : List Task)
    → ((t : Task) → hit t ≡ true → t.id ≡ task)
    → ((t : Task) → (f t).id ≡ t.id)
    → (id == task) ≡ false
    → state_of id (update_where hit f ts) ≡ state_of id ts
unfolding state_of find_where update_where
state_of-other hit f task id [] own keep n = refl
state_of-other hit f task id (t ∷ ts) own keep n =
    ground (arith, own t, keep t, state_of-other hit f task id ts own keep n)

pub state_of-moved :
    (hit : Task → Bool) (f : Task → Task) (task : ℕ) (ts : List Task) (t : Task)
    → ((x : Task) → (f x).id ≡ x.id)
    → find_where (by_id task) ts ≡ some t
    → hit t ≡ true
    → state_of task (update_where hit f ts) ≡ some (f t).state
unfolding state_of find_where update_where
state_of-moved hit f task [] t keep e h = cc
state_of-moved hit f task (x ∷ xs) t keep e h =
    ground (arith, keep x, state_of-moved hit f task xs t keep)

pub update_where-Moves :
    (hit : Task → Bool) (f : Task → Task) (task : ℕ) (from to : TaskState) (ts : List Task)
    → ((t : Task) → hit t ≡ true → (t.id ≡ task) × (t.state ≡ from))
    → ((t : Task) → ((f t).id ≡ t.id) × (t.state ≡ from → (f t).state ≡ to))
    → Distinct (task_ids ts)
    → (count_where hit ts == 1) ≡ true
    → Moves task from to ts (update_where hit f ts)
unfolding state_of
update_where-Moves hit f task from to ts own keep keys one =
    let (t, e, h) =
      row_of_key (λ x. x.id) task hit (by_id task) ts (λ r y. ground (arith, own r))
        (λ r y. ground arith) keys (count_where-any hit ts 0 (ground arith)) in
    record {
      keys = subst Distinct (sym (task_ids-update_where hit f ts (λ x. (keep x).0))) keys;
      before = rw (e, state_of) (ap some (own t h).1);
      after =
          state_of-moved hit f task ts t (λ x. (keep x).0) e h ∙ ap some ((keep t).1 (own t h).1);
      others = λ id n. state_of-other hit f task id ts (λ x y. (own x y).0) (λ x. (keep x).0) n;
    }

-- An attempt of another task keeps its place, and one of this task has its new one.
pub Moves-Placed :
    (task : ℕ) (from to : TaskState) (ts ts' : List Task) (a b : IntegrationAttempt)
    → Moves task from to ts ts'
    → b.task_id ≡ a.task_id
    → ((a.task_id == task) ≡ false → b.status ≡ a.status)
    → (a.task_id ≡ task → fits (some from) a.status ≡ true → fits (some to) b.status ≡ true)
    → Placed ts a
    → Placed ts' b
Moves-Placed task from to ts ts' a b m same rest own h = elim (Bool-cases (a.task_id == task)) [
  | inl y ↦
      let e : a.task_id ≡ task = ground arith in
      let h' = rw (e, m.before) at h in rw (same, e, m.after) (own e h')
  | inr n ↦ rw (same, m.others a.task_id n, rest n) h
]
