-- ===== src/Store/Dispatches.antt =====
-- internal/store/effect.go: how often one side effect is dispatched.
use mar.Prelude.{
  ℕ, suc, ◌+◌, ◌≤◌, ◌≡◌, refl, Bool, true, false, ◌&&◌, ◌||◌, List, [], ◌∷◌, if◌then◌else◌, arith,
  any,
}
use mar.Sql.{count_where, update_where}
use mar.Domain.Effect.{EffectRecord, is_prepared, is_observed, is_not_applied}
use mar.Store.Effects.{by_operation}

-- A row that may be dispatched, now or once it is rearmed.
abbrev pub is_open : ℕ → EffectRecord → Bool
is_open operation r =
    by_operation operation r
    && (is_prepared r.state || (is_observed r.state && is_not_applied r.observation_outcome))

-- How many dispatches the rows allow with no further evidence: a row that does not exist yet
-- allows one.
abbrev pub open_rows : ℕ → List EffectRecord → ℕ
open_rows operation xs =
    let n = count_where (is_open operation) xs in
    if any (by_operation operation) xs then n else suc n

pub any-update_where :
    (operation : ℕ) (p : EffectRecord → Bool) (f : EffectRecord → EffectRecord)
    (xs : List EffectRecord)
    → ((r : EffectRecord) → (f r).intent ≡ r.intent)
    → any (by_operation operation) (update_where p f xs) ≡ any (by_operation operation) xs
unfolding update_where
any-update_where operation p f [] same = refl
any-update_where operation p f (x ∷ xs) same =
    ground (arith, same x, any-update_where operation p f xs same)

pub closed_rows :
    (operation : ℕ) (p : EffectRecord → Bool) (f : EffectRecord → EffectRecord)
    (xs : List EffectRecord)
    → ((r : EffectRecord) → p r ≡ true → is_open operation r ≡ true)
    → ((r : EffectRecord) → is_open operation (f r) ≡ false)
    → count_where (is_open operation) (update_where p f xs) + count_where p xs
      ≡ count_where (is_open operation) xs
unfolding update_where count_where
closed_rows operation p f [] was now = refl
closed_rows operation p f (x ∷ xs) was now =
    ground (arith, was x, now x, closed_rows operation p f xs was now)

pub opened_rows :
    (operation : ℕ) (p : EffectRecord → Bool) (f : EffectRecord → EffectRecord)
    (xs : List EffectRecord)
    → count_where (is_open operation) (update_where p f xs)
      ≤ count_where (is_open operation) xs + count_where p xs
unfolding update_where count_where
opened_rows operation p f [] = omega arith
opened_rows operation p f (x ∷ xs) = ground (arith, opened_rows operation p f xs)

pub kept_rows :
    (operation : ℕ) (p : EffectRecord → Bool) (f : EffectRecord → EffectRecord)
    (xs : List EffectRecord)
    → ((r : EffectRecord)
        → p r ≡ true
        → is_open operation (f r) ≡ true
        → is_open operation r ≡ true)
    → count_where (is_open operation) (update_where p f xs) ≤ count_where (is_open operation) xs
unfolding update_where count_where
kept_rows operation p f [] keep = omega arith
kept_rows operation p f (x ∷ xs) keep = ground (arith, keep x, kept_rows operation p f xs keep)
