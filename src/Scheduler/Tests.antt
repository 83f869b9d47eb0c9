-- ===== src/Scheduler/Tests.antt =====
-- internal/scheduler/scheduler.go: choices among three tasks, and the theorems at them.
use mar.Prelude.{
  ℕ, ◌≡◌, refl, inl, inr, List, [], ◌∷◌, Option, none, some, All, Any, arith, if◌then◌else◌, ◌==◌,
}
use mar.Scheduler.{
  Waiting, Candidate, candidate, collect, offer, sort_slice, insert_sorted, less, first_task,
  select_task, effective_priority, priority_rank,
}
use mar.Scheduler.Selection.{Precedes, select_task-Precedes}
use mar.Scheduler.MapOrder.{select_task-map_order}
use mar.Scheduler.Aging.{effective_priority-aged}

-- "p1 "
abbrev high : List ℕ
high = 112 ∷ 49 ∷ 32 ∷ []

-- "low"
abbrev low : List ℕ
low = 108 ∷ 111 ∷ 119 ∷ []

abbrev urgent : Waiting
urgent = record { id = 2; project_id = 1; priority = high; updated_at = 90; created_at = 90 }

abbrev patient : Waiting
patient = record { id = 3; project_id = 2; priority = low; updated_at = 10; created_at = 5 }

abbrev late : Waiting
late = record { id = 4; project_id = 1; priority = low; updated_at = 95; created_at = 95 }

abbrev tasks : List Waiting
tasks = late ∷ patient ∷ urgent ∷ []

abbrev dispatches : ℕ → Option ℕ
dispatches project = if project == 1 then some 80 else none

high_rank : priority_rank high ≡ 1
unfolding priority_rank
high_rank = refl

-- The task of low priority has waited three intervals, and overtakes the urgent one.
patient_selected : select_task dispatches 100 30 tasks ≡ some patient
unfolding select_task collect offer sort_slice insert_sorted less first_task effective_priority
    priority_rank
patient_selected = refl

select_task-Precedes_example :
    (s : Waiting) × (select_task dispatches 100 30 tasks ≡ some s)
    × Any (λ u. u ≡ s) tasks
    × All (Precedes dispatches 100 30 s) tasks
select_task-Precedes_example = select_task-Precedes dispatches 100 30 late (patient ∷ urgent ∷ [])

abbrev turned : List Candidate
turned = candidate dispatches 100 30 patient ∷ candidate dispatches 100 30 urgent ∷ []

collected :
    collect dispatches 100 30 tasks []
    ≡ candidate dispatches 100 30 urgent ∷ candidate dispatches 100 30 patient ∷ []
unfolding collect offer effective_priority priority_rank
collected = refl

swapped : (a b c : Candidate) → Any (λ d. d ≡ c) (a ∷ b ∷ []) → Any (λ d. d ≡ c) (b ∷ a ∷ [])
swapped a b c (inl e) = inr (inl e)
swapped a b c (inr (inl e)) = inl e
swapped a b c (inr (inr e)) = absurd e

select_task-map_order_example : first_task (sort_slice turned) ≡ select_task dispatches 100 30 tasks
unfolding collect offer effective_priority priority_rank
select_task-map_order_example =
    select_task-map_order dispatches 100 30 tasks turned
      (λ c. swapped (candidate dispatches 100 30 patient) (candidate dispatches 100 30 urgent) c)
      (λ c. swapped (candidate dispatches 100 30 urgent) (candidate dispatches 100 30 patient) c)

effective_priority-aged_example : effective_priority low 10 100 30 ≡ 0
effective_priority-aged_example = effective_priority-aged low 10 100 30 (omega arith) (omega arith)
