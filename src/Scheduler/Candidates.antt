-- ===== src/Scheduler/Candidates.antt =====
-- internal/scheduler/scheduler.go: the map byProject after the loop over the waiting tasks.
use mar.Prelude.{
  ℕ, ◌≤◌, ◌≡◌, refl, ◌||◌, List, [], ◌∷◌, map, contains, Distinct, Option, ◌==◌, arith, inl, inr,
  Bool-cases, All, Any,
}
use mar.Scheduler.{Candidate, Waiting, offer, is_better, candidate, collect}

-- The project has a candidate of this priority or a better one.
abbrev pub Covers : ℕ → ℕ → Candidate → Type 0
Covers project effective c = (c.task.project_id ≡ project) × (c.effective ≤ effective)

offer-new :
    (new : Candidate) (found : List Candidate)
    → Any (Covers new.task.project_id new.effective) (offer new found)
unfolding offer
offer-new new [] = inl (refl, omega arith)
offer-new new (old ∷ rest) =
    let others = offer-new new rest in
    elim (Bool-cases (old.task.project_id == new.task.project_id)) [
      | inl y ↦ rw y (inl (ground arith))
      | inr n ↦ rw n (inr others)
    ]

offer-Covers :
    (new : Candidate) (project effective : ℕ) (found : List Candidate)
    → Any (Covers project effective) found
    → Any (Covers project effective) (offer new found)
unfolding offer
offer-Covers new project effective [] h = absurd h
offer-Covers new project effective (old ∷ rest) (inr h) =
    let others = offer-Covers new project effective rest h in
    elim (Bool-cases (old.task.project_id == new.task.project_id)) [
      | inl y ↦ rw y (inr h)
      | inr n ↦ rw n (inr others)
    ]
offer-Covers new project effective (old ∷ rest) (inl h) =
    elim (Bool-cases (old.task.project_id == new.task.project_id)) [
      | inl y ↦ rw y (inl (ground arith))
      | inr n ↦ rw n (inl h)
    ]

offer-All {κ} :
    (P : Candidate → Type κ) (new : Candidate) (found : List Candidate)
    → P new
    → All P found
    → All P (offer new found)
unfolding offer
offer-All P new [] p h = (p, tt)
offer-All P new (old ∷ rest) p h =
    let others = offer-All P new rest p h.1 in
    elim (Bool-cases (old.task.project_id == new.task.project_id)) [
      | inr n ↦ rw n (h.0, others)
      | inl y ↦ elim (Bool-cases (is_better new old)) [
        | inl b ↦ rw (y, b) (p, h.1)
        | inr b ↦ rw (y, b) (h.0, h.1)
      ]
    ]

abbrev pub projects : List Candidate → List ℕ
projects = map (λ c. c.task.project_id)

contains-offer :
    (k : ℕ) (new : Candidate) (found : List Candidate)
    → contains k (projects (offer new found))
      ≡ (contains k (projects found) || k == new.task.project_id)
unfolding offer
contains-offer k new [] = ground arith
contains-offer k new (old ∷ rest) = ground (arith, contains-offer k new rest)

offer-Distinct :
    (new : Candidate) (found : List Candidate)
    → Distinct (projects found)
    → Distinct (projects (offer new found))
unfolding offer
offer-Distinct new [] d = (refl, tt)
offer-Distinct new (old ∷ rest) d =
    ground (arith, contains-offer old.task.project_id new rest, offer-Distinct new rest d.1)

module _ (states : ℕ → Option ℕ) (now aging : ℕ) where
  collect-Covers :
      (ts : List Waiting) (found : List Candidate) (project effective : ℕ)
      → Any (Covers project effective) found
      → Any (Covers project effective) (collect states now aging ts found)
  unfolding collect
  collect-Covers [] found project effective h = h
  collect-Covers (t ∷ ts) found project effective h =
      collect-Covers ts (offer (candidate states now aging t) found) project effective
        (offer-Covers (candidate states now aging t) project effective found h)

  abbrev pub Covered : List Candidate → Waiting → Type 0
  Covered found t = Any (Covers t.project_id ((candidate states now aging t).effective)) found

  -- Every task has a candidate of its project that is as urgent as the task.
  pub collect-covers :
      (ts : List Waiting) (found : List Candidate)
      → All (Covered (collect states now aging ts found)) ts
  unfolding collect
  collect-covers [] found = tt
  collect-covers (t ∷ ts) found =
      let new = candidate states now aging t in
      (
        collect-Covers ts (offer new found) t.project_id new.effective (offer-new new found),
        collect-covers ts (offer new found),
      )

  -- Each candidate is that of a task.
  pub collect-All {κ} :
      (P : Candidate → Type κ) (ts : List Waiting) (found : List Candidate)
      → All (λ t. P (candidate states now aging t)) ts
      → All P found
      → All P (collect states now aging ts found)
  unfolding collect
  collect-All P [] found p h = h
  collect-All P (t ∷ ts) found p h =
      collect-All P ts (offer (candidate states now aging t) found) p.1
        (offer-All P (candidate states now aging t) found p.0 h)

  -- Each project has one candidate.
  pub collect-Distinct :
      (ts : List Waiting) (found : List Candidate)
      → Distinct (projects found)
      → Distinct (projects (collect states now aging ts found))
  unfolding collect
  collect-Distinct [] found d = d
  collect-Distinct (t ∷ ts) found d =
      collect-Distinct ts (offer (candidate states now aging t) found)
        (offer-Distinct (candidate states now aging t) found d)
