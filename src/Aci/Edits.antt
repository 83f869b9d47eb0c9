-- ===== src/Aci/Edits.antt =====
-- internal/aci/replace_many.go: a batch of replacements as the edits that it stands for.
use mar.Prelude.{
  ℕ, suc, ◌≤◌, ◌≡◌, refl, subst, Bool, true, false, not, List, [], ◌∷◌, ◌==◌, if◌then◌else◌, ltb,
  arith, inl, inr, Bool-cases, length, ◌⊎◌, ==_iff,
}
use mar.Aci.Strings.{count, replace, Replaced, replace-Replaced}
use mar.Aci.Paths.{Error, Result, ok, err}
use mar.Aci.Files.{
  Runtime, ExactReplacement, ReplacementReceipt, replace_text, replace_each, is_bad,
}

pub Result-cases {ℓ} :
    {A : Type ℓ} (r : Result A) → ((e : Error) × (r ≡ err e)) ⊎ ((a : A) × (r ≡ ok a))
Result-cases (err e) = inl (e, refl)
Result-cases (ok a) = inr (a, refl)

-- `P` of the answer, if there is one.
abbrev pub Answers {ℓ κ} : {A : Type ℓ} → (A → Type κ) → Result A → Type κ
Answers P (ok a) = P a
Answers P (err e) = Unit

pub Answers-if {ℓ κ} :
    {A : Type ℓ} (P : A → Type κ) (b : Bool) (x y : Result A)
    → (b ≡ true → Answers P x)
    → (b ≡ false → Answers P y)
    → Answers P (if b then x else y)
Answers-if P true x y p q = p refl
Answers-if P false x y p q = q refl

pub Answers-ok {ℓ κ} :
    {A : Type ℓ} (P : A → Type κ) (r : Result A) {a : A} → Answers P r → r ≡ ok a → P a
Answers-ok P r h e = subst (Answers P) e h

-- `text'` comes of `text` by the replacements in order, each of as many matches as it expects, and
-- no text on the way is longer than the limit.
abbrev pub Edited : ℕ → List ExactReplacement → List ℕ → List ℕ → Type 0
Edited limit [] text text' = text' ≡ text
Edited limit (x ∷ xs) text text' =
    (mid : List ℕ) × Replaced text x.search x.replacement x.expected_count mid
    × (length mid ≤ limit)
    × Edited limit xs mid text'

-- The receipts name every replacement, with the count that it expected.
abbrev pub Receipts : ℕ → List ExactReplacement → List ReplacementReceipt → Type 0
Receipts index [] [] = Unit
Receipts index [] (y ∷ ys) = ⊥
Receipts index (x ∷ xs) [] = ⊥
Receipts index (x ∷ xs) (y ∷ ys) =
    (y.index ≡ suc index)
    × (y.expected_count ≡ x.expected_count)
    × (y.matched_count ≡ x.expected_count)
    × Receipts (suc index) xs ys

pub Edited-bounded :
    (limit : ℕ) (xs : List ExactReplacement) (text text' : List ℕ)
    → Edited limit xs text text'
    → length text ≤ limit
    → length text' ≤ limit
Edited-bounded limit [] text text' e h = rw e h
Edited-bounded limit (x ∷ xs) text text' (mid, r, short, rest) h =
    Edited-bounded limit xs mid text' rest short

module _ (r : Runtime) where
  replace_text-Replaced :
      (x : ExactReplacement) (text : List ℕ)
      → is_bad r x ≡ false
      → Answers
          (λ new_text.
            Replaced text x.search x.replacement x.expected_count new_text
            × (length new_text ≤ r.max_write_bytes)
            × (count text x.search ≡ x.expected_count))
          (replace_text r x text)
  unfolding replace_text
  replace_text-Replaced x text fine =
      let out = replace text x.search x.replacement x.expected_count in
      let P = λ (new_text : List ℕ).
        Replaced text x.search x.replacement x.expected_count new_text
        × (length new_text ≤ r.max_write_bytes)
        × (count text x.search ≡ x.expected_count) in
      Answers-if P (not (count text x.search == x.expected_count)) _ _ (λ _. tt)
        λ n.
          let same = (==_iff (count text x.search) x.expected_count).0 (ground arith) in
          Answers-if P (ltb r.max_write_bytes (length out)) _ _ (λ _. tt)
            λ short. (
              subst
                  (λ n.
                    Replaced text x.search x.replacement n (replace text x.search x.replacement n))
                  same (replace-Replaced text x.search x.replacement (ground arith)),
              ground arith,
              same,
            )

  -- The loop's answer is the edits in order, with a receipt for each.
  pub replace_each-Edited :
      (index : ℕ) (xs : List ExactReplacement) (text : List ℕ)
      → Answers
          (λ t. Edited r.max_write_bytes xs text t.0 × Receipts index xs t.1)
          (replace_each r index xs text)
  unfolding replace_each
  replace_each-Edited index [] text = (refl, tt)
  replace_each-Edited index (x ∷ xs) text =
      let P = λ (t : List ℕ × List ReplacementReceipt).
        Edited r.max_write_bytes (x ∷ xs) text t.0 × Receipts index (x ∷ xs) t.1 in
      elim (Bool-cases (is_bad r x)) [
        | inl y ↦ rw (y, replace_each) tt
        | inr fine ↦ elim (Result-cases (replace_text r x text)) [
          | inl (z, e) ↦ rw (fine, e, replace_each) tt
          | inr (mid, e) ↦
              let made =
                Answers-ok _ (replace_text r x text) (replace_text-Replaced x text fine) e in
              elim (Result-cases (replace_each r (suc index) xs mid)) [
                | inl (z, e') ↦ rw (fine, e, e', replace_each) tt
                | inr ((text', ys), e') ↦
                    let rest =
                      Answers-ok _ (replace_each r (suc index) xs mid)
                        (replace_each-Edited (suc index) xs mid) e' in
                    rw (fine, e, e', replace_each)
                      ((mid, made.0, made.1, rest.0), (refl, refl, made.2, rest.1))
              ]
        ]
      ]
