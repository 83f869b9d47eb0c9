-- ===== src/Prelude/Pigeons.antt =====
-- Distinct numbers from 1 to `n`: there are at most `n`, and `n` of them are all.
use Prim.Native.Nat.{ℕ, zero, suc, ◌≤◌, ◌<◌}
use mathlib.Core.Path.{◌≡◌, refl}
use mathlib.Core.Logic.{inl, inr}
use mathlib.Core.Bool.{true, false}
use mathlib.Core.List.{List, [], ◌∷◌}
use native.Mathlib.Omega.{arith}
use mar.Prelude.Tests.{◌==◌, if◌then◌else◌, Bool-cases, ==_refl}
use mar.Prelude.Lists.{length, contains, Distinct}

abbrev without : ℕ → List ℕ → List ℕ
without k [] = []
without k (x ∷ xs) = let rest = without k xs in if k == x then xs else x ∷ rest

contains-without : (j k : ℕ) (xs : List ℕ) → contains j (without k xs) ≡ true → contains j xs ≡ true
contains-without j k [] h = h
contains-without j k (x ∷ xs) h = ground (arith, contains-without j k xs)

absent-without : (j k : ℕ) (xs : List ℕ) → contains j xs ≡ false → contains j (without k xs) ≡ false
absent-without j k [] h = h
absent-without j k (x ∷ xs) h = ground (arith, absent-without j k xs)

removed-without : (k : ℕ) (xs : List ℕ) → Distinct xs → contains k (without k xs) ≡ false
removed-without k [] d = refl
removed-without k (x ∷ xs) d = ground (arith, removed-without k xs d.1)

Distinct-without : (k : ℕ) (xs : List ℕ) → Distinct xs → Distinct (without k xs)
Distinct-without k [] d = tt
Distinct-without k (x ∷ xs) d = elim (Bool-cases (k == x)) [
  | inl y ↦ rw y d.1
  | inr n ↦ rw n (absent-without x k xs d.0, Distinct-without k xs d.1)
]

length-without : (k : ℕ) (xs : List ℕ) → length xs ≤ suc (length (without k xs))
length-without k [] = omega arith
length-without k (x ∷ xs) = ground (arith, length-without k xs)

abbrev pub Ranged : ℕ → List ℕ → Type 0
Ranged n xs = (k : ℕ) → contains k xs ≡ true → (0 < k) × (k ≤ n)

length-Distinct : (n : ℕ) (xs : List ℕ) → Distinct xs → Ranged n xs → length xs ≤ n
length-Distinct zero [] d r = omega arith
length-Distinct zero (x ∷ xs) d r =
    let self = ==_refl x in let at = r x (ground arith) in absurd (omega (arith, at))
length-Distinct (suc n) xs d r =
    let shorter = length-Distinct n (without (suc n) xs) (Distinct-without (suc n) xs d) (λ k h.
      let at = r k (contains-without k (suc n) xs h) in
      let gone = removed-without (suc n) xs d in
      elim (Bool-cases (k == suc n)) [
        | inl y ↦ absurd (same_absent k (suc n) xs y h gone)
        | inr apart ↦ (ground arith, ground arith)
      ]) in
    omega (arith, shorter, length-without (suc n) xs)
  where
    same_absent :
        (k m : ℕ) (xs : List ℕ)
        → (k == m) ≡ true
        → contains k (without m xs) ≡ true
        → contains m (without m xs) ≡ false
        → ⊥
    same_absent k m xs y h g = ground arith

-- `n` distinct numbers from 1 to `n` are all of them.
pub contains-Distinct :
    (n k : ℕ) (xs : List ℕ)
    → Distinct xs
    → Ranged n xs
    → length xs ≡ n
    → 0 < k
    → k ≤ n
    → contains k xs ≡ true
contains-Distinct n k xs d r full low high = elim (Bool-cases (contains k xs)) [
  | inl y ↦ y
  | inr absent ↦
      let longer =
        length-Distinct n (k ∷ xs) (absent, d)
          (λ j h. elim (Bool-cases (j == k)) [
            | inl y ↦ (ground arith, ground arith)
            | inr n ↦ r j (ground arith)
          ]) in
      absurd (omega (arith, longer))
]
