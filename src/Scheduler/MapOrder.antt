-- ===== src/Scheduler/MapOrder.antt =====
-- internal/scheduler/scheduler.go: the answer does not hang on the order in which Go ranges over a map.
use mar.Prelude.{
  ℕ, ◌≡◌, refl, sym, ap, subst, ◌∙◌, true, false, List, [], ◌∷◌, contains, Distinct, Option, some,
  arith, inl, inr, Any, Any-All,
}
use mar.Scheduler.{Candidate, Waiting, collect, less, sort_slice, first_task, select_task}
use mar.Scheduler.Order.{less_total}
use mar.Scheduler.Candidates.{projects, collect-Distinct}
use mar.Scheduler.Selection.{Leading, first_of}

same_first :
    (c d : Candidate) (cs ds : List Candidate)
    → Leading c cs
    → Leading d ds
    → Distinct (projects cs)
    → ((x : Candidate) → Any (λ y. y ≡ x) ds → Any (λ y. y ≡ x) cs)
    → ((x : Candidate) → Any (λ y. y ≡ x) cs → Any (λ y. y ≡ x) ds)
    → c ≡ d
same_first c d cs ds l k distinct back forth =
    let (x, same, before) = Any-All ds (forth c l.member) k.unpreceded in
    let (y, also, after) = Any-All cs (back d k.member) l.unpreceded in
    let before' = subst (λ z. less z d ≡ false) same before in
    let after' = subst (λ z. less z c ≡ false) also after in
    one_of_project c d cs distinct l.member (back d k.member) (less_total c d before' after')
  where
    listed :
        (x : Candidate) (cs : List Candidate)
        → Any (λ y. y ≡ x) cs
        → contains x.task.project_id (projects cs) ≡ true
    listed x [] m = absurd m
    listed x (c ∷ cs) (inl e) = let p = ap (λ z. z.task.project_id) e in ground arith
    listed x (c ∷ cs) (inr m) = let h = listed x cs m in ground arith

    one_of_project :
        (c d : Candidate) (cs : List Candidate)
        → Distinct (projects cs)
        → Any (λ y. y ≡ c) cs
        → Any (λ y. y ≡ d) cs
        → c.task.project_id ≡ d.task.project_id
        → c ≡ d
    one_of_project c d [] u m n e = absurd m
    one_of_project c d (x ∷ xs) u (inl m) (inl n) e = sym m ∙ n
    one_of_project c d (x ∷ xs) u (inr m) (inr n) e = one_of_project c d xs u.1 m n e
    one_of_project c d (x ∷ xs) u (inl m) (inr n) e =
        let h = listed d xs n in
        let p = ap (λ z. z.task.project_id) m in let apart = u.0 in absurd (ground arith)
    one_of_project c d (x ∷ xs) u (inr m) (inl n) e =
        let h = listed c xs m in
        let p = ap (λ z. z.task.project_id) n in let apart = u.0 in absurd (ground arith)

module _ (states : ℕ → Option ℕ) (now aging : ℕ) where
  -- The range over the map byProject may yield the candidates in any order: the task that heads
  -- the sorted list is the same.
  pub select_task-map_order :
      (ts : List Waiting) (cs : List Candidate)
      → ((c : Candidate) → Any (λ d. d ≡ c) cs → Any (λ d. d ≡ c) (collect states now aging ts []))
      → ((c : Candidate) → Any (λ d. d ≡ c) (collect states now aging ts []) → Any (λ d. d ≡ c) cs)
      → first_task (sort_slice cs) ≡ select_task states now aging ts
  unfolding select_task
  select_task-map_order ts cs into from =
      answer cs (collect states now aging ts []) into from
        (collect-Distinct states now aging ts [] tt)
    where
      answer :
          (cs ds : List Candidate)
          → ((c : Candidate) → Any (λ d. d ≡ c) cs → Any (λ d. d ≡ c) ds)
          → ((c : Candidate) → Any (λ d. d ≡ c) ds → Any (λ d. d ≡ c) cs)
          → Distinct (projects ds)
          → first_task (sort_slice cs) ≡ first_task (sort_slice ds)
      answer [] [] into from u = refl
      answer [] (d ∷ ds) into from u = absurd (from d (inl refl))
      answer (c ∷ cs) [] into from u = absurd (into c (inl refl))
      answer (c ∷ cs) (d ∷ ds) into from u =
          let (h, e, l) = first_of (λ x. x ≡ c) (c ∷ cs) (inl refl) in
          let (k, f, m) = first_of (λ x. x ≡ d) (d ∷ ds) (inl refl) in
          let same = same_first k h (d ∷ ds) (c ∷ cs) m l u into from in
          e ∙ ap (λ x. some (x.task)) (sym same) ∙ sym f
