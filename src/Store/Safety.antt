-- ===== src/Store/Safety.antt =====
-- internal/store: what no history of calls can break.
use mar.Prelude.{
  ℕ, ◌<◌, ◌≡◌, ◌≢◌, refl, sym, map, contains, Distinct, subst, ◌∙◌, Bool, true, false, List, [],
  ◌∷◌, Option, none, arith, inl, inr, any,
}
use mar.Sql.{count_where}
use mar.Domain.Task.{ExecutionAttempt}
use mar.Domain.Control.{TaskControl}
use mar.Store.{Db, validate_attempt_authority_tx, by_attempt_id}
use mar.Store.Tasks.{attempt_collides}
use mar.Store.Tame.{task_ids, Demoted}
use mar.Store.Fencing.{Fenced, Begins-Fenced, Tame-Fenced}
use mar.Store.Authority.{authority_unique, Tame-validate, Begins-validate}
use mar.Store.History.{Call, Change, tame, begun, step, run, step-Change}

abbrev pub attempt_ids : List ExecutionAttempt → List ℕ
attempt_ids = map (λ a. a.id)

abbrev pub has_attempt : ℕ → Db → Bool
has_attempt attempt db = any (by_attempt_id attempt) db.attempts

any-Demoted :
    (attempt : ℕ) (xs ys : List ExecutionAttempt)
    → Demoted xs ys
    → any (by_attempt_id attempt) ys ≡ any (by_attempt_id attempt) xs
any-Demoted attempt [] [] d = refl
any-Demoted attempt [] (y ∷ ys) d = absurd d
any-Demoted attempt (x ∷ xs) [] d = absurd d
any-Demoted attempt (x ∷ xs) (y ∷ ys) d = ground (arith, any-Demoted attempt xs ys d.1)

any-collides :
    (attempt : ℕ) (new : ExecutionAttempt) (xs : List ExecutionAttempt)
    → any (by_attempt_id attempt) xs ≡ true
    → any (attempt_collides new) xs ≡ false
    → attempt ≢ new.id
any-collides attempt new [] h k = cc
any-collides attempt new (x ∷ xs) h k = ground (arith, any-collides attempt new xs)

Change-has_attempt :
    (attempt : ℕ) (db db' : Db)
    → Change db db'
    → has_attempt attempt db ≡ true
    → has_attempt attempt db' ≡ true
Change-has_attempt attempt db db' (tame t) h =
    any-Demoted attempt db.attempts db'.attempts t.attempts ∙ h
Change-has_attempt attempt db db' (begun task new b) h = rw b.added (ground arith)

Change-validate :
    (task attempt epoch : ℕ) (db db' : Db)
    → Change db db'
    → 0 < epoch
    → has_attempt attempt db ≡ true
    → validate_attempt_authority_tx task attempt epoch db' ≡ none
    → validate_attempt_authority_tx task attempt epoch db ≡ none
Change-validate task attempt epoch db db' (tame t) p h v =
    Tame-validate task attempt epoch db db' t p v
Change-validate task attempt epoch db db' (begun begin new b) p h v =
    elim (Begins-validate begin task attempt epoch db db' new b p v) [
      | inl e ↦ absurd (any-collides attempt new db.attempts h b.new_id e)
      | inr w ↦ w
    ]

Change-Fenced : (db db' : Db) → Change db db' → Fenced db → Fenced db'
Change-Fenced db db' (tame t) f = Tame-Fenced t f
Change-Fenced db db' (begun task new b) f = Begins-Fenced task db db' new b f

-- The primary keys of the two tables are unique.
pub record Keyed (db : Db) : Type 0 where
  pub task_keys : Distinct (task_ids db.tasks)
  pub attempt_keys : Distinct (attempt_ids db.attempts)

attempt_ids-Demoted :
    (xs ys : List ExecutionAttempt) → Demoted xs ys → attempt_ids ys ≡ attempt_ids xs
attempt_ids-Demoted [] [] d = refl
attempt_ids-Demoted [] (y ∷ ys) d = absurd d
attempt_ids-Demoted (x ∷ xs) [] d = absurd d
attempt_ids-Demoted (x ∷ xs) (y ∷ ys) d = ground (arith, attempt_ids-Demoted xs ys d.1)

contains-collides :
    (new : ExecutionAttempt) (xs : List ExecutionAttempt)
    → any (attempt_collides new) xs ≡ false
    → contains new.id (attempt_ids xs) ≡ false
contains-collides new [] h = refl
contains-collides new (x ∷ xs) h = ground (arith, contains-collides new xs)

pub Change-Keyed : (db db' : Db) → Change db db' → Keyed db → Keyed db'
Change-Keyed db db' (tame t) v = record {
  task_keys = t.keys v.task_keys;
  attempt_keys =
      subst Distinct (sym (attempt_ids-Demoted db.attempts db'.attempts t.attempts)) v.attempt_keys;
}
Change-Keyed db db' (begun task new b) v = record {
  task_keys = b.keys v.task_keys;
  attempt_keys = rw b.added (contains-collides new db.attempts b.new_id, v.attempt_keys);
}

unbegun : (db : Db) → db.attempts ≡ [] → Fenced db
unfolding count_where
unbegun db e = record { single = λ task. rw e (omega arith); current = rw e tt }

module _ (digest : TaskControl → Option ℕ) (json_valid : ℕ → Bool) where
  -- Where at most one attempt of each task is not terminated, and that one is at the epoch of its
  -- task and none above it, this stays so in any history of calls.
  pub run-Fenced : (db : Db) (cs : List Call) → Fenced db → Fenced (run digest json_valid db cs)
  unfolding run
  run-Fenced db [] f = f
  run-Fenced db (c ∷ cs) f =
      run-Fenced (step digest json_valid db c) cs
        (Change-Fenced db _ (step-Change digest json_valid db c) f)

  -- The keys stay unique in any history, so that a WHERE on a key selects one row at most.
  run-Keyed : (db : Db) (cs : List Call) → Keyed db → Keyed (run digest json_valid db cs)
  unfolding run
  run-Keyed db [] v = v
  run-Keyed db (c ∷ cs) v =
      run-Keyed (step digest json_valid db c) cs
        (Change-Keyed db _ (step-Change digest json_valid db c) v)

  -- In any history of calls that begins with no attempts, two attempts of one task that both pass
  -- the authority check are the same attempt at the same epoch.
  pub run-authority_unique :
      (db : Db) (cs : List Call) (task a b d e : ℕ)
      → db.attempts ≡ []
      → validate_attempt_authority_tx task a d (run digest json_valid db cs) ≡ none
      → validate_attempt_authority_tx task b e (run digest json_valid db cs) ≡ none
      → (a ≡ b) × (d ≡ e)
  run-authority_unique db cs task a b d e none_yet =
      authority_unique task a b d e (run digest json_valid db cs)
        (run-Fenced db cs (unbegun db none_yet))

  -- An attempt that is in the store and does not pass the authority check at a positive epoch
  -- never passes it at that epoch again, whatever calls follow.
  pub authority_lost :
      (db : Db) (cs : List Call) (task attempt epoch : ℕ)
      → 0 < epoch
      → has_attempt attempt db ≡ true
      → validate_attempt_authority_tx task attempt epoch db ≢ none
      → validate_attempt_authority_tx task attempt epoch (run digest json_valid db cs) ≢ none
  unfolding run
  authority_lost db [] task attempt epoch p h n = n
  authority_lost db (c ∷ cs) task attempt epoch p h n =
      let change = step-Change digest json_valid db c in
      authority_lost (step digest json_valid db c) cs task attempt epoch p
        (Change-has_attempt attempt db _ change h)
        (λ v. n (Change-validate task attempt epoch db _ change p h v))
