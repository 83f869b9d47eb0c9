-- ===== src/Scheduler/Selection.antt =====
-- internal/scheduler/scheduler.go: which task selectTask answers.
use mar.Prelude.{
  ℕ, ◌≤◌, ◌<◌, ◌≡◌, refl, ap, subst, ◌⊎◌, true, false, List, [], ◌∷◌, Option, some, arith, inl, inr,
  Bool-cases, All, Any, All-map, Any-All,
}
use mar.Scheduler.{
  Candidate, Waiting, candidate, collect, less, insert_sorted, sort_slice, first_task, select_task,
}
use mar.Scheduler.Order.{less_trans, less_co_trans, less_irrefl, less_first, dispatch_key}
use mar.Scheduler.Candidates.{Covered, collect-covers, collect-All}

-- `h` stands in the list, and nothing precedes it.
pub record Leading (h : Candidate) (cs : List Candidate) : Type 0 where
  pub member : Any (λ c. c ≡ h) cs
  pub unpreceded : All (λ c. less c h ≡ false) cs

-- The head of the sorted list.
record Headed (cs : List Candidate) : Type 0 where
  head : Candidate
  rest : List Candidate
  sorted : sort_slice cs ≡ head ∷ rest
  leading : Leading head cs

insert_sorted-Headed :
    (c h : Candidate) (rest cs : List Candidate)
    → sort_slice cs ≡ h ∷ rest
    → Leading h cs
    → Headed (c ∷ cs)
unfolding sort_slice insert_sorted
insert_sorted-Headed c h rest cs e l = elim (Bool-cases (less h c)) [
  | inl y ↦ record {
    head = h;
    rest = insert_sorted c rest;
    sorted = rw (e, y) refl;
    leading = record {
      member = inr l.member;
      unpreceded = (
        elim (Bool-cases (less c h)) [ inr n ↦ n | inl back ↦ absurd (cycle c h back y) ],
        l.unpreceded,
      );
    };
  }
  | inr n ↦ record {
    head = c;
    rest = h ∷ rest;
    sorted = rw (e, n) refl;
    leading = record {
      member = inl refl;
      unpreceded =
          (less_irrefl c, All-map cs (λ d before. less_co_trans c h d n before) l.unpreceded);
    };
  }
]
  where
    cycle : (a b : Candidate) → less a b ≡ true → less b a ≡ true → ⊥
    cycle a b p q = let r = less_trans a b a p q in let s = less_irrefl a in ground arith

sort_slice-Headed : (c : Candidate) (cs : List Candidate) → Headed (c ∷ cs)
unfolding sort_slice insert_sorted
sort_slice-Headed c [] = record {
  head = c;
  rest = [];
  sorted = refl;
  leading = record { member = inl refl; unpreceded = (less_irrefl c, tt) };
}
sort_slice-Headed c (d ∷ ds) =
    let s = sort_slice-Headed d ds in
    insert_sorted-Headed c s.head s.rest (d ∷ ds) s.sorted s.leading

-- `t` is at least as urgent as `u` and, where they are equally urgent, of a project that was not
-- dispatched later.
abbrev pub Precedes : (ℕ → Option ℕ) → ℕ → ℕ → Waiting → Waiting → Type 0
Precedes states now aging t u =
    ((candidate states now aging t).effective < (candidate states now aging u).effective)
    ⊎ (((candidate states now aging t).effective ≡ (candidate states now aging u).effective)
        × (dispatch_key (states t.project_id) ≤ dispatch_key (states u.project_id)))

pub first_of :
    (P : Candidate → Type 0) (cs : List Candidate)
    → Any P cs
    → (h : Candidate) × (first_task (sort_slice cs) ≡ some h.task) × Leading h cs
unfolding first_task
first_of P [] m = absurd m
first_of P (c ∷ cs) m = let s = sort_slice-Headed c cs in (s.head, rw (s.sorted) refl, s.leading)

module _ (states : ℕ → Option ℕ) (now aging : ℕ) where
  -- The candidate is that of a task of the list.
  abbrev Of : List Waiting → Candidate → Type 0
  Of ts c = (candidate states now aging c.task ≡ c) × Any (λ t. t ≡ c.task) ts

  All-Of : (ts : List Waiting) → All (λ t. Of ts (candidate states now aging t)) ts
  All-Of [] = tt
  All-Of (t ∷ ts) = ((refl, inl refl), All-map ts (λ u h. (h.0, inr h.1)) (All-Of ts))

  Covered-Precedes :
      (ts : List Waiting) (h : Candidate) (u : Waiting) (cs : List Candidate)
      → Of ts h
      → All (Of ts) cs
      → All (λ c. less c h ≡ false) cs
      → Covered states now aging cs u
      → Precedes states now aging h.task u
  Covered-Precedes ts h u (c ∷ cs) p o l (inr m) = Covered-Precedes ts h u cs p o.1 l.1 m
  Covered-Precedes ts h u (c ∷ cs) p o l (inl m) =
      let first = less_first h c l.0 in
      let h_effective = ap (λ z. z.effective) p.0 in
      let h_dispatch = ap (λ z. dispatch_key z.last_dispatch) p.0 in
      let c_dispatch = ap (λ z. dispatch_key z.last_dispatch) (o.0.0) in
      let same = ap (λ z. dispatch_key (states z)) m.0 in let urgent = m.1 in ground arith
  Covered-Precedes ts h u [] p o l m = absurd m

  -- selectTask answers a task of a list that is not empty, and the task precedes every task of
  -- the list: none has a better effective priority, and among the projects of the tasks that are
  -- as urgent its own was dispatched longest ago, or never.
  pub select_task-Precedes :
      (t : Waiting) (ts : List Waiting)
      → (s : Waiting) × (select_task states now aging (t ∷ ts) ≡ some s)
        × Any (λ u. u ≡ s) (t ∷ ts)
        × All (Precedes states now aging s) (t ∷ ts)
  unfolding select_task first_task
  select_task-Precedes t ts =
      let cs = collect states now aging (t ∷ ts) [] in
      let covers = collect-covers states now aging (t ∷ ts) [] in
      let of_all = collect-All states now aging (Of (t ∷ ts)) (t ∷ ts) [] (All-Of (t ∷ ts)) tt in
      let (h, answered, l) = first_of _ cs covers.0 in
      let (c, same, of_c) = Any-All cs l.member of_all in
      let of_h = subst (Of (t ∷ ts)) same of_c in
      (
        h.task,
        answered,
        of_h.1,
        All-map (t ∷ ts)
            (λ u covered. Covered-Precedes (t ∷ ts) h u cs of_h of_all l.unpreceded covered) covers,
      )
