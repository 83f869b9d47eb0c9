-- ===== src/Sql.antt =====
-- How the models read the SQL statements of internal/store: a table is the list of its rows,
-- newest first; UPDATE maps the rows that its WHERE selects and counts them; SELECT of one row
-- takes the first that fits. A condition on a primary key fits one row at most.
pub mod Keys
use mar.Prelude.{
  ℕ, suc, ◌+◌, ◌≤◌, ◌≡◌, refl, Bool, true, false, List, [], ◌∷◌, Option, none, some, arith, inl,
  inr, Bool-cases, if◌then◌else◌, All,
}

module _ {ℓ} {R : Type ℓ} where
  -- UPDATE … SET … WHERE …
  unfoldable pub update_where : (R → Bool) → (R → R) → List R → List R
  update_where p f [] = []
  update_where p f (r ∷ rs) = (if p r then f r else r) ∷ update_where p f rs

  -- RowsAffected, and SELECT COUNT(*)
  unfoldable pub count_where : (R → Bool) → List R → ℕ
  count_where p [] = 0
  count_where p (r ∷ rs) = let n = count_where p rs in if p r then suc n else n

  -- SELECT … WHERE …, one row
  unfoldable pub find_where : (R → Bool) → List R → Option R
  find_where p [] = none
  find_where p (r ∷ rs) = if p r then some r else find_where p rs

  pub find_where-holds :
      (p : R → Bool) (rs : List R) (r : R) → find_where p rs ≡ some r → p r ≡ true
  unfolding find_where
  find_where-holds p [] r e = cc
  find_where-holds p (x ∷ xs) r e = ground (arith, find_where-holds p xs r)

  pub count_where-zero :
      (p : R → Bool) (rs : List R) (r : R) → count_where p rs ≡ 0 → find_where p rs ≡ none
  unfolding count_where find_where
  count_where-zero p [] r e = refl
  count_where-zero p (x ∷ xs) r e = ground (arith, count_where-zero p xs x)

  -- An UPDATE that affects no row changes nothing.
  pub update_where-none :
      (p : R → Bool) (f : R → R) (rs : List R) → count_where p rs ≡ 0 → update_where p f rs ≡ rs
  unfolding count_where update_where
  update_where-none p f [] e = refl
  update_where-none p f (x ∷ xs) e = ground (arith, update_where-none p f xs)

  pub All-update_where {κ} :
      (P : R → Type κ) (p : R → Bool) (f : R → R) (rs : List R)
      → ((r : R) → P r → p r ≡ true → P (f r))
      → All P rs
      → All P (update_where p f rs)
  unfolding update_where
  All-update_where P p f [] keep h = h
  All-update_where P p f (x ∷ xs) keep h =
      let rest = All-update_where P p f xs keep h.1 in
      elim (Bool-cases (p x)) [ inl e ↦ rw e (keep x h.0 e, rest) | inr e ↦ rw e (h.0, rest) ]
