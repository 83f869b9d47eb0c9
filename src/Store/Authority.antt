-- ===== src/Store/Authority.antt =====
-- internal/store: who may change a task, over any history of calls.
use mar.Prelude.{
  ℕ, ◌≤◌, ◌<◌, ◌≡◌, sym, subst, ◌∙◌, ◌⊎◌, true, false, List, [], ◌∷◌, Option, none, some, ◌==◌,
  arith, inl, inr, Bool-cases, Option-cases,
}
use mar.Sql.{find_where, count_where}
use mar.Domain.Task.{ExecutionAttempt, is_active}
use mar.Store.{Db, live_attempts, get_task_row, is_attempt, validate_attempt_authority_tx}
use mar.Store.Tame.{Tame, Demoted, epoch_of, rank}
use mar.Store.Fencing.{Fenced, Begins, epoch_of-found}

abbrev pub attempt_row : ℕ → ℕ → ℕ → Db → Option ExecutionAttempt
attempt_row task attempt epoch db = find_where (is_attempt task attempt epoch) db.attempts

-- What a successful check of authority has seen.
pub record Authorized (task attempt epoch : ℕ) (db : Db) : Type 0 where
  pub row : ExecutionAttempt
  pub found : attempt_row task attempt epoch db ≡ some row
  pub row_active : is_active row.authority_state ≡ true
  pub at_epoch : epoch_of task db.tasks ≡ epoch

pub validate-Authorized :
    (task attempt epoch : ℕ) (db : Db)
    → validate_attempt_authority_tx task attempt epoch db ≡ none
    → Authorized task attempt epoch db
unfolding validate_attempt_authority_tx
validate-Authorized task attempt epoch db h = elim (Option-cases (get_task_row task db)) [
  | inl e ↦ ground arith
  | inr (t, e) ↦ elim (Option-cases (attempt_row task attempt epoch db)) [
    | inl n ↦ ground arith
    | inr (a, n) ↦ record {
      row = a;
      found = n;
      row_active = ground arith;
      at_epoch = ground (arith, epoch_of-found task db.tasks t e);
    }
  ]
]

pub Authorized-validate :
    (task attempt epoch : ℕ) (db : Db)
    → 0 < epoch
    → Authorized task attempt epoch db
    → validate_attempt_authority_tx task attempt epoch db ≡ none
unfolding validate_attempt_authority_tx epoch_of
Authorized-validate task attempt epoch db p v = elim (Option-cases (get_task_row task db)) [
  | inl e ↦ let at = v.at_epoch in absurd (ground arith)
  | inr (t, e) ↦ let seen = v.found in let act = v.row_active in let at = v.at_epoch in ground arith
]

pub live_attempts-found :
    (task attempt epoch : ℕ) (xs : List ExecutionAttempt) (r : ExecutionAttempt)
    → find_where (is_attempt task attempt epoch) xs ≡ some r
    → is_active r.authority_state ≡ true
    → 1 ≤ live_attempts task xs
unfolding count_where find_where
live_attempts-found task attempt epoch [] r e h = cc
live_attempts-found task attempt epoch (x ∷ xs) r e h =
    ground (arith, live_attempts-found task attempt epoch xs r)

live_attempts_unique :
    (task a b d e : ℕ) (xs : List ExecutionAttempt) (r s : ExecutionAttempt)
    → live_attempts task xs ≤ 1
    → find_where (is_attempt task a d) xs ≡ some r
    → find_where (is_attempt task b e) xs ≡ some s
    → is_active r.authority_state ≡ true
    → is_active s.authority_state ≡ true
    → a ≡ b
unfolding count_where find_where
live_attempts_unique task a b d e [] r s h f g p q = cc
live_attempts_unique task a b d e (x ∷ xs) r s h f g p q = ground (
  arith,
  live_attempts_unique task a b d e xs r s,
  live_attempts-found task a d xs r,
  live_attempts-found task b e xs s,
)

-- Two attempts of one task that both pass the authority check are the same attempt, at the same
-- epoch.
pub authority_unique :
    (task a b d e : ℕ) (db : Db)
    → Fenced db
    → validate_attempt_authority_tx task a d db ≡ none
    → validate_attempt_authority_tx task b e db ≡ none
    → (a ≡ b) × (d ≡ e)
authority_unique task a b d e db f h k =
    let v = validate-Authorized task a d db h in
    let w = validate-Authorized task b e db k in
    (
      live_attempts_unique task a b d e db.attempts v.row w.row (f.single task) v.found w.found
          v.row_active w.row_active,
      sym v.at_epoch ∙ w.at_epoch,
    )

find_where-Demoted :
    (task attempt epoch : ℕ) (xs ys : List ExecutionAttempt) (y : ExecutionAttempt)
    → Demoted xs ys
    → find_where (is_attempt task attempt epoch) ys ≡ some y
    → (x : ExecutionAttempt) × (find_where (is_attempt task attempt epoch) xs ≡ some x)
      × (rank x.authority_state ≤ rank y.authority_state)
unfolding find_where
find_where-Demoted task attempt epoch [] [] y d e = cc
find_where-Demoted task attempt epoch [] (z ∷ ys) y d e = absurd d
find_where-Demoted task attempt epoch (x ∷ xs) [] y d e = absurd d
find_where-Demoted task attempt epoch (x ∷ xs) (z ∷ ys) y d e =
    elim (Bool-cases (is_attempt task attempt epoch z)) [
      | inl hit ↦ (x, ground arith, ground arith)
      | inr miss ↦
          let (w, found, weaker) =
            find_where-Demoted task attempt epoch xs ys y d.1 (ground arith) in
          (w, ground arith, weaker)
    ]

-- A tame change gives nobody authority.
pub Tame-validate :
    (task attempt epoch : ℕ) (db db' : Db)
    → Tame db db'
    → 0 < epoch
    → validate_attempt_authority_tx task attempt epoch db' ≡ none
    → validate_attempt_authority_tx task attempt epoch db ≡ none
Tame-validate task attempt epoch db db' t p h =
    let v = validate-Authorized task attempt epoch db' h in
    let (x, found, weaker) =
      find_where-Demoted task attempt epoch db.attempts db'.attempts v.row t.attempts v.found in
    let act = v.row_active in
    Authorized-validate task attempt epoch db p (record {
      row = x;
      found = found;
      row_active = ground arith;
      at_epoch = sym (t.epochs task) ∙ v.at_epoch;
    })

-- Beginning an attempt gives authority to that attempt alone.
pub Begins-validate :
    (begun : ℕ) (task attempt epoch : ℕ) (db db' : Db) (new : ExecutionAttempt)
    → Begins begun db new db'
    → 0 < epoch
    → validate_attempt_authority_tx task attempt epoch db' ≡ none
    → (attempt ≡ new.id) ⊎ (validate_attempt_authority_tx task attempt epoch db ≡ none)
unfolding find_where
Begins-validate begun task attempt epoch db db' new b p h =
    let v = validate-Authorized task attempt epoch db' h in
    let seen =
      subst (λ xs. find_where (is_attempt task attempt epoch) xs ≡ some v.row) b.added v.found in
    let act = v.row_active in
    let at = sym (b.epochs task) ∙ v.at_epoch in
    elim (Bool-cases (is_attempt task attempt epoch new)) [
      | inl hit ↦ inl (ground arith)
      | inr miss ↦
          let old : attempt_row task attempt epoch db ≡ some v.row = ground arith in
          let live = live_attempts-found task attempt epoch db.attempts v.row old act in
          let other : (task == begun) ≡ false = ground (arith, b.nothing_live) in
          inr (
            Authorized-validate task attempt epoch db p
              (record { row = v.row; found = old; row_active = act; at_epoch = ground arith }))
    ]
