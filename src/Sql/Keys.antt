-- ===== src/Sql/Keys.antt =====
-- Rows of a table whose key is unique.
use mar.Prelude.{
  ℕ, suc, ◌≡◌, refl, sym, subst, Bool, true, false, List, [], ◌∷◌, some, arith, inl, inr,
  Bool-cases, any, map, contains, Distinct,
}
use mar.Sql.{find_where, count_where}

pub count_where-any {ℓ} :
    {R : Type ℓ} (p : R → Bool) (xs : List R) (n : ℕ) → count_where p xs ≡ suc n → any p xs ≡ true
unfolding count_where
count_where-any p [] n h = absurd (omega arith)
count_where-any p (x ∷ xs) n h = elim (Bool-cases (p x)) [
  | inl y ↦ rw y
  | inr k ↦ let h' = rw k at h in rw k (count_where-any p xs n h')
]

module _ {ℓ} {R : Type ℓ} (key : R → ℕ) (k : ℕ) (p q : R → Bool) where
  contains-found :
      (xs : List R) (r : R) → find_where q xs ≡ some r → key r ≡ k → contains k (map key xs) ≡ true
  unfolding find_where
  contains-found [] r e h = cc
  contains-found (x ∷ xs) r e h = ground (arith, contains-found xs r)

  -- Where `p` holds of some row, the query `q` for the key finds a row where it holds.
  pub row_of_key :
      (xs : List R)
      → ((r : R) → p r ≡ true → q r ≡ true)
      → ((r : R) → q r ≡ true → key r ≡ k)
      → Distinct (map key xs)
      → any p xs ≡ true
      → (r : R) × (find_where q xs ≡ some r) × (p r ≡ true)
  unfolding find_where
  row_of_key [] pq qk d h = cc
  row_of_key (x ∷ xs) pq qk d h = elim (Bool-cases (p x)) [
    | inl y ↦ (x, rw (pq x y), y)
    | inr n ↦
        let h' = rw n at h in
        let (r, found, holds) = row_of_key xs pq qk d.1 h' in
        elim (Bool-cases (q x)) [
          | inl y ↦
              let same = qk x y in
              let again = contains-found xs r found (qk r (pq r holds)) in
              let apart = d.0 in absurd (ground arith)
          | inr m ↦ (r, rw m found, holds)
        ]
  ]

  count_where-missing :
      (xs : List R)
      → ((r : R) → p r ≡ true → key r ≡ k)
      → contains k (map key xs) ≡ false
      → count_where p xs ≡ 0
  unfolding count_where
  count_where-missing [] pk h = refl
  count_where-missing (x ∷ xs) pk h = ground (arith, pk x, count_where-missing xs pk)

  -- Where `p` holds of the row that the query `q` for the key finds, it holds of one row.
  pub count_of_key :
      (xs : List R) (r : R)
      → ((r : R) → p r ≡ true → key r ≡ k)
      → ((r : R) → q r ≡ true → key r ≡ k)
      → Distinct (map key xs)
      → find_where q xs ≡ some r
      → p r ≡ true
      → count_where p xs ≡ 1
  unfolding find_where count_where
  count_of_key [] r pk qk d e h = cc
  count_of_key (x ∷ xs) r pk qk d e h = elim (Bool-cases (q x)) [
    | inl y ↦
        let same : x ≡ r = ground arith in
        let none_more =
          count_where-missing xs pk (subst (λ n. contains n (map key xs) ≡ false) (qk x y) d.0) in
        let px : p x ≡ true = subst (λ z. p z ≡ true) (sym same) h in rw (px, none_more) refl
    | inr n ↦
        let e' = rw n at e in
        let found = contains-found xs r e' (pk r h) in
        elim (Bool-cases (p x)) [
          | inl y ↦
              let apart = subst (λ n. contains n (map key xs) ≡ false) (pk x y) d.0 in
              absurd (ground arith)
          | inr m ↦ rw m (count_of_key xs r pk qk d.1 e' h)
        ]
  ]
