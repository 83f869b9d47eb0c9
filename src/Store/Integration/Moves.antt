-- ===== src/Store/Integration/Moves.antt =====
-- internal/store/integration.go: what each transaction does to publications and their tasks.
use mar.Prelude.{
  ℕ, ◌≤◌, ◌≡◌, refl, ap, sym, subst, ◌∙◌, Bool, true, false, List, [], ◌∷◌, Option, none, some,
  ◌==◌, arith, inl, inr, Bool-cases, All, All-map, any,
}
use mar.Sql.{find_where-holds, find_where, count_where, update_where}
use mar.Domain.Task.{Task, TaskState, state_eq, ready_to_integrate}
use mar.Domain.Integration.{
  IntegrationStatus, prepared, dispatched, integration_complete, integration_blocked, status_eq,
  IntegrationAttempt,
}
use mar.Store.{Db}
use mar.Store.Integration.{by_integration, at_status, integration_collides}
use mar.Store.Integration.Places.{
  state_of, is_pending, fits, Placed, pending_of, Published, only_row, count_where-update_where,
  Moves, Moves-Placed,
}

module _ {ℓ} {R : Type ℓ} where
  All-both {κ μ} :
      (P : R → Type κ) (Q : R → Type μ) (xs : List R)
      → All P xs
      → All Q xs
      → All (λ x. P x × Q x) xs
  All-both P Q [] p q = tt
  All-both P Q (x ∷ xs) p q = ((p.0, q.0), All-both P Q xs p.1 q.1)

  -- What holds of every row of an updated table.
  All-updated {κ μ} :
      (P : R → Type κ) (Q : R → Type μ) (hit : R → Bool) (f : R → R) (xs : List R)
      → ((x : R) → hit x ≡ true → P x → Q (f x))
      → ((x : R) → hit x ≡ false → P x → Q x)
      → All P xs
      → All Q (update_where hit f xs)
  unfolding update_where
  All-updated P Q hit f [] on_hit on_miss h = tt
  All-updated P Q hit f (x ∷ xs) on_hit on_miss h =
      let rest = All-updated P Q hit f xs on_hit on_miss h.1 in
      elim (Bool-cases (hit x)) [
        | inl y ↦ rw y (on_hit x y h.0, rest)
        | inr n ↦ rw n (on_miss x n h.0, rest)
      ]

  none-counted : (p : R → Bool) (xs : List R) → All (λ x. p x ≡ false) xs → count_where p xs ≡ 0
  unfolding count_where
  none-counted p [] h = refl
  none-counted p (x ∷ xs) h = rw h.0 (none-counted p xs h.1)

-- The rows that a step may read before its transaction: an attempt that is in the store.
pub record Named (a : IntegrationAttempt) (db : Db) : Type 0 where
  pub row : IntegrationAttempt
  pub found : find_where (by_integration a.id) db.integrations ≡ some row
  pub task : row.task_id ≡ a.task_id

pub idle_fits :
    (o : Option TaskState) (s : IntegrationStatus) → is_pending s ≡ false → fits o s ≡ true
idle_fits none prepared n = cc
idle_fits (some t) prepared n = cc
idle_fits none dispatched n = cc
idle_fits (some t) dispatched n = cc
idle_fits none integration_complete n = refl
idle_fits (some t) integration_complete n = refl
idle_fits none integration_blocked n = refl
idle_fits (some t) integration_blocked n = refl

-- Where the UPDATE of an attempt hits one row, it hits the row that was read.
pub row_hit :
    (id : ℕ) (want : IntegrationStatus) (xs : List IntegrationAttempt) (r : IntegrationAttempt)
    → count_where (by_integration id) xs ≤ 1
    → find_where (by_integration id) xs ≡ some r
    → by_integration id r ≡ true
    → (count_where (at_status id want) xs == 1) ≡ true
    → at_status id want r ≡ true
row_hit id want xs r h e by one = elim (Bool-cases (at_status id want r)) [
  | inl y ↦ y
  | inr n ↦
      let all = only_row (by_integration id) (by_integration id) xs r h e by in
      let zero_hits = none-counted (at_status id want) xs (
        All-map xs
          (λ x same. elim (Bool-cases (at_status id want x)) [
            | inr m ↦ m
            | inl y ↦
                let e' = same (ground arith) in
                let y' = subst (λ z. at_status id want z ≡ true) e' y in absurd (ground arith)
          ])
          all) in
      absurd (ground arith)
]

pending_eq :
    (s w : IntegrationStatus) → status_eq s w ≡ true → is_pending w ≡ true → is_pending s ≡ true
pending_eq prepared w e h = refl
pending_eq dispatched w e h = refl
pending_eq integration_complete integration_complete e h = h
pending_eq integration_complete prepared e h = cc
pending_eq integration_complete dispatched e h = cc
pending_eq integration_complete integration_blocked e h = cc
pending_eq integration_blocked integration_blocked e h = h
pending_eq integration_blocked prepared e h = cc
pending_eq integration_blocked dispatched e h = cc
pending_eq integration_blocked integration_complete e h = cc

at_status-pending :
    (id task : ℕ) (want : IntegrationStatus) (x : IntegrationAttempt)
    → is_pending want ≡ true
    → at_status id want x ≡ true
    → x.task_id ≡ task
    → pending_of task x ≡ true
at_status-pending id task want x p h e =
    let live = pending_eq x.status want (ground arith) p in ground arith

-- An attempt that the UPDATE does not hit keeps its place.
missed :
    (task : ℕ) (from to : TaskState) (ts ts' : List Task) (x r : IntegrationAttempt)
    (hit : IntegrationAttempt → Bool)
    → Moves task from to ts ts'
    → hit r ≡ true
    → hit x ≡ false
    → (pending_of task x ≡ true → x ≡ r)
    → Placed ts x
    → Placed ts' x
missed task from to ts ts' x r hit m hits misses only h = elim (Bool-cases (is_pending x.status)) [
  | inr idle ↦ idle_fits (state_of x.task_id ts') x.status idle
  | inl live ↦ elim (Bool-cases (x.task_id == task)) [
    | inl own ↦
        let same = only (ground arith) in
        let again = subst (λ z. hit z ≡ true) (sym same) hits in absurd (ground arith)
    | inr other ↦ rw (m.others x.task_id other) h
  ]
]

-- An UPDATE of the attempt that was read, and of its task.
pub rows-Published :
    (want : IntegrationStatus) (f : IntegrationAttempt → IntegrationAttempt) (from to : TaskState)
    (a : IntegrationAttempt) (db : Db) (ts : List Task)
    → is_pending want ≡ true
    → ((x : IntegrationAttempt) → ((f x).id ≡ x.id) × ((f x).task_id ≡ x.task_id))
    → ((x : IntegrationAttempt) → fits (some to) (f x).status ≡ true)
    → Named a db
    → (count_where (at_status a.id want) db.integrations == 1) ≡ true
    → Moves a.task_id from to db.tasks ts
    → Published db
    → Published (record db {
      tasks = ts;
      integrations = update_where (at_status a.id want) f db.integrations;
    })
rows-Published want f from to a db ts pending keep place n one m p =
    let hit = at_status a.id want in
    let xs = db.integrations in
    let by = by_integration a.id in
    let named : by n.row ≡ true = find_where-holds by xs n.row n.found in
    let r_hit = row_hit a.id want xs n.row (p.ids a.id) n.found named one in
    let r_pending : pending_of a.task_id n.row ≡ true =
      at_status-pending a.id a.task_id want n.row pending r_hit n.task in
    let by_id = only_row by by xs n.row (p.ids a.id) n.found named in
    let by_task =
      only_row by (pending_of a.task_id) xs n.row (p.single a.task_id) n.found r_pending in
    record {
      keys = m.keys;
      ids = λ k.
          let fewer =
            count_where-update_where (by_integration k) hit f xs
              (λ x _ e. ground (arith, keep x)) in
          let one = p.ids k in omega arith;
      single = λ t.
          let fewer =
            count_where-update_where (pending_of t) hit f xs
              (λ x h e. at_status-pending a.id t want x pending h (ground (arith, keep x))) in
          let one = p.single t in omega arith;
      placed =
          All-updated _ (Placed ts) hit f xs
            (λ x h q.
              let same : x.task_id ≡ a.task_id =
                ap (λ y. y.task_id) (q.0 (ground arith)) ∙ n.task in
              rw ((keep x).1 ∙ same, m.after) (place x))
            (λ x h q. missed a.task_id from to db.tasks ts x n.row hit m r_hit h q.1.0 q.1.1)
            (All-both _ _ xs by_id (All-both _ _ xs by_task p.placed));
    }

-- An UPDATE of the task alone, from a state in which no attempt of it can be DISPATCHED and to one
-- in which every attempt of it may stand.
pub task-Published :
    (task : ℕ) (from to : TaskState) (db : Db) (ts : List Task)
    → ((s : IntegrationStatus) → fits (some from) s ≡ true → fits (some to) s ≡ true)
    → Moves task from to db.tasks ts
    → Published db
    → Published (record db { tasks = ts })
task-Published task from to db ts safe m p = record {
  keys = m.keys;
  ids = p.ids;
  single = p.single;
  placed =
      All-map db.integrations
        (λ x h. Moves-Placed task from to db.tasks ts x x m refl (λ _. refl) (λ _. safe x.status) h)
        p.placed;
}

unlisted :
    (new : IntegrationAttempt) (xs : List IntegrationAttempt)
    → any (integration_collides new) xs ≡ false
    → All (λ x. by_integration new.id x ≡ false) xs
unlisted new [] h = tt
unlisted new (x ∷ xs) h = (ground arith, unlisted new xs (ground arith))

-- A task in such a state has no attempt that has not ended.
unpending :
    (task : ℕ) (from : TaskState) (ts : List Task) (x : IntegrationAttempt)
    → ((s : IntegrationStatus) → fits (some from) s ≡ true → is_pending s ≡ false)
    → state_of task ts ≡ some from
    → Placed ts x
    → pending_of task x ≡ false
unpending task from ts x idle e h = elim (Bool-cases (x.task_id == task)) [
  | inr n ↦ ground arith
  | inl y ↦
      let same : x.task_id ≡ task = ground arith in
      let h' = rw (same, e) at h in let ended = idle x.status h' in ground arith
]

-- A PREPARED attempt of a task that had none pending, and that becomes ready with it.
pub insert-Published :
    (from : TaskState) (new : IntegrationAttempt) (db : Db) (ts : List Task)
    → ((s : IntegrationStatus) → fits (some from) s ≡ true → is_pending s ≡ false)
    → new.status ≡ prepared
    → any (integration_collides new) db.integrations ≡ false
    → Moves new.task_id from ready_to_integrate db.tasks ts
    → Published db
    → Published (record db { tasks = ts; integrations = new ∷ db.integrations })
unfolding count_where state_eq
insert-Published from new db ts idle status fresh m p =
    let xs = db.integrations in
    let task = new.task_id in
    let none_of = All-map xs (λ x h. unpending task from db.tasks x idle m.before h) p.placed in
    let no_id = none-counted (by_integration new.id) xs (unlisted new xs fresh) in
    let no_task = none-counted (pending_of task) xs none_of in
    record {
      keys = m.keys;
      ids = λ k. elim (Bool-cases (new.id == k)) [
        | inr n ↦ rw n (p.ids k)
        | inl y ↦
            let e : new.id ≡ k = ground arith in
            let z = subst (λ j. count_where (by_integration j) xs ≡ 0) e no_id in rw y (omega arith)
      ];
      single = λ t. elim (Bool-cases (new.task_id == t)) [
        | inr n ↦ rw n (p.single t)
        | inl y ↦
            let e : new.task_id ≡ t = ground arith in
            let z = subst (λ j. count_where (pending_of j) xs ≡ 0) e no_task in
            rw (y, status) (omega arith)
      ];
      placed = (
        rw (m.after, status) refl,
        All-map xs
            (λ x both.
              Moves-Placed task from ready_to_integrate db.tasks ts x x m refl (λ _. refl)
                (λ own h. idle_fits (some ready_to_integrate) x.status (idle x.status h)) both)
            p.placed,
      );
    }
