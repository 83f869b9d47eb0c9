-- ===== src/Scheduler.antt =====
-- internal/scheduler/scheduler.go: which waiting task is served next.
-- Identifiers are numbers in the order of their texts, and
-- times are numbers; the clock's range of a duration (292 years) is not modelled.
pub mod Order
pub mod Candidates
pub mod Selection
pub mod Aging
pub mod MapOrder
pub mod Step
pub mod Release
mod Tests
mod StepTests
use mar.Text.{trim_space, upper, same_text}
use mar.Prelude.{
  ℕ, suc, ◌+◌, ◌-◌, ◌/◌, ◌≡◌, Bool, true, false, ◌&&◌, ◌||◌, not, List, [], ◌∷◌, ◌++◌, map, Option,
  none, some, ◌==◌, if◌then◌else◌, ltb, leb, contains,
}

abbrev is_named : List ℕ → List (List ℕ) → Bool
is_named text [] = false
is_named text (name ∷ names) = same_text text name || is_named text names

abbrev names_0 : List (List ℕ)
names_0 = (80 ∷ 48 ∷ []) ∷ (67 ∷ 82 ∷ 73 ∷ 84 ∷ 73 ∷ 67 ∷ 65 ∷ 76 ∷ []) ∷ []

abbrev names_1 : List (List ℕ)
names_1 = (80 ∷ 49 ∷ []) ∷ (72 ∷ 73 ∷ 71 ∷ 72 ∷ []) ∷ []

abbrev names_2 : List (List ℕ)
names_2 =
    (80 ∷ 50 ∷ []) ∷ (78 ∷ 79 ∷ 82 ∷ 77 ∷ 65 ∷ 76 ∷ []) ∷ (77 ∷ 69 ∷ 68 ∷ 73 ∷ 85 ∷ 77 ∷ []) ∷ []

abbrev rank_of_name : List ℕ → ℕ
rank_of_name name =
    if is_named name names_0
    then 0
    else if is_named name names_1
    then 1
    else if is_named name names_2
    then 2
    else 3

-- priorityRank; "P3", "LOW" and the default are all 3.
unfoldable pub priority_rank : List ℕ → ℕ
priority_rank priority = rank_of_name (map upper (trim_space priority))

-- effectivePriority
unfoldable pub effective_priority : List ℕ → ℕ → ℕ → ℕ → ℕ
effective_priority priority waiting_since now aging =
    let base = priority_rank priority in
    let steps = (now - waiting_since) / aging in
    if ltb now waiting_since || aging == 0 then base else if leb base steps then 0 else base - steps

-- The columns of a waiting task that the choice reads.
pub record Waiting : Type 0 where
  pub id : ℕ
  pub project_id : ℕ
  pub priority : List ℕ
  pub updated_at : ℕ
  pub created_at : ℕ

-- projectCandidate
pub record Candidate : Type 0 where
  pub task : Waiting
  pub effective : ℕ
  pub last_dispatch : Option ℕ

-- The candidate takes the place of the one that its project has.
abbrev pub is_better : Candidate → Candidate → Bool
is_better new old =
    ltb new.effective old.effective
    || (new.effective == old.effective && ltb new.task.updated_at old.task.updated_at)
    || (new.effective == old.effective
        && (new.task.updated_at == old.task.updated_at
            && ltb new.task.created_at old.task.created_at))

-- One round of the loop: the map byProject is the list of its values, by project.
unfoldable pub offer : Candidate → List Candidate → List Candidate
offer new [] = new ∷ []
offer new (old ∷ rest) =
    let others = offer new rest in
    if old.task.project_id == new.task.project_id
    then (if is_better new old then new else old) ∷ rest
    else old ∷ others

abbrev pub dispatched_before : Option ℕ → Option ℕ → Bool → Bool
dispatched_before none none rest = rest
dispatched_before none (some b) rest = true
dispatched_before (some a) none rest = false
dispatched_before (some a) (some b) rest = if a == b then rest else ltb a b

-- The order of sort.Slice.
unfoldable pub less : Candidate → Candidate → Bool
less a b =
    if not (a.effective == b.effective)
    then ltb a.effective b.effective
    else dispatched_before a.last_dispatch b.last_dispatch (
        if not (a.task.updated_at == b.task.updated_at)
        then ltb a.task.updated_at b.task.updated_at
        else if not (a.task.project_id == b.task.project_id)
        then ltb a.task.project_id b.task.project_id
        else ltb a.task.id b.task.id)

unfoldable pub insert_sorted : Candidate → List Candidate → List Candidate
insert_sorted c [] = c ∷ []
insert_sorted c (d ∷ ds) =
    let rest = insert_sorted c ds in if less d c then d ∷ rest else c ∷ d ∷ ds

-- sort.Slice, as an insertion sort
unfoldable pub sort_slice : List Candidate → List Candidate
sort_slice [] = []
sort_slice (c ∷ cs) = insert_sorted c (sort_slice cs)

-- candidates(0 ∷ []).task; `none` is the panic of an empty slice.
unfoldable pub first_task : List Candidate → Option Waiting
first_task [] = none
first_task (c ∷ cs) = some (c.task)

module _ (states : ℕ → Option ℕ) (now aging : ℕ) where
  abbrev pub candidate : Waiting → Candidate
  candidate t = record {
    task = t;
    effective = effective_priority t.priority t.updated_at now aging;
    last_dispatch = states t.project_id;
  }

  -- The loop over the tasks, from the candidates found so far.
  unfoldable pub collect : List Waiting → List Candidate → List Candidate
  collect [] found = found
  collect (t ∷ ts) found = collect ts (offer (candidate t) found)

  -- selectTask
  unfoldable pub select_task : List Waiting → Option Waiting
  select_task tasks = first_task (sort_slice (collect tasks []))
