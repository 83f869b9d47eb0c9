-- ===== src/Governor/History.antt =====
-- internal/resourcegov/governor.go: histories of acquisitions and releases of leases.
use mar.Prelude.{
  ℕ, ◌<◌, ◌≡◌, refl, Bool, true, false, List, [], ◌∷◌, arith, ◌∙◌, sym, ap, subst, inl, inr,
  Bool-cases, if◌then◌else◌, Option, none, some, Option-cases, contains, Distinct, ◌==◌,
}
use mar.Governor.{
  Claim, Active, Config, Snapshot, exists, delete, Lease, Desk, find_lease, mark_released,
  acquire_lease, release_lease, release, heavy_jobs,
}
use mar.Governor.Admission.{allowed-fresh}
use mar.Governor.Capacity.{Capped, insert-Capped, release-Capped}
use mar.Governor.Leases.{
  Kept, Below, ids, leased, acquire_lease_cases, acquire_lease-Kept, release_lease-Kept,
  exists-contains, contains-remove, ids-delete, find_lease-pending,
}

pub data Call : Type 0 where
  acquires : Option Snapshot → Claim → Call
  releases : ℕ → Call

unfoldable pub step : Desk → Call → Desk
step d (acquires reading c) = acquire_lease d reading c
step d (releases t) = release_lease d t

unfoldable pub run : Desk → List Call → Desk
run d [] = d
run d (c ∷ cs) = run (step d c) cs

-- A governor as `New` makes it, before any lease.
abbrev pub opened : Config → Desk
opened cfg = record { governor = record { cfg = cfg; active = [] }; leases = []; next_token = 0 }

step-Kept : (d : Desk) (c : Call) → Kept d → Kept (step d c)
unfolding step
step-Kept d (acquires reading c) v = acquire_lease-Kept d reading c v
step-Kept d (releases t) v = release_lease-Kept d t v

run-Kept : (d : Desk) (cs : List Call) → Kept d → Kept (run d cs)
unfolding run
run-Kept d [] v = v
run-Kept d (c ∷ cs) v = run-Kept (step d c) cs (step-Kept d c v)

-- After any history of calls, with any readings, the active claims are exactly those of the
-- leases that were handed out and not released, and no two of them have the same id.
pub run-opened-Kept : (cfg : Config) (cs : List Call) → Kept (run (opened cfg) cs)
run-opened-Kept cfg cs = run-Kept (opened cfg) cs (record { held = refl; once = tt; fresh = tt })

abbrev Sane : Desk → Type 0
Sane d = Capped d.governor.cfg d.governor.active

release_lease-Sane : (d : Desk) (t : ℕ) → Sane d → Sane (release_lease d t)
unfolding release_lease release
release_lease-Sane d t v = elim (Option-cases (find_lease t d.leases)) [
  | inl gone ↦ rw (gone, release_lease) v
  | inr (l, e) ↦ elim (Bool-cases l.released) [
    | inl h ↦ rw (e, release_lease) (simp h v)
    | inr h ↦ rw (e, release_lease) (simp h (release-Capped d.governor l.claim_id v))
  ]
]

step-Sane : (d : Desk) (c : Call) → Sane d → Sane (step d c)
unfolding step
step-Sane d (acquires reading c) v = acquire_lease_cases Sane d reading c v λ s e h.
    let (fresh, room) = allowed-fresh d.governor s c h in
    insert-Capped d.governor.cfg d.governor.active s c fresh room v
step-Sane d (releases t) v = release_lease-Sane d t v

run-Sane : (d : Desk) (cs : List Call) → Sane d → Sane (run d cs)
unfolding run
run-Sane d [] v = v
run-Sane d (c ∷ cs) v = run-Sane (step d c) cs (step-Sane d c v)

pub cfg-step : (d : Desk) (c : Call) → (step d c).governor.cfg ≡ d.governor.cfg
unfolding step release_lease release
cfg-step d (acquires reading c) =
    acquire_lease_cases (λ e. e.governor.cfg ≡ d.governor.cfg) d reading c refl (λ s e h. refl)
cfg-step d (releases t) = ground arith

cfg-run : (d : Desk) (cs : List Call) → (run d cs).governor.cfg ≡ d.governor.cfg
unfolding run
cfg-run d [] = refl
cfg-run d (c ∷ cs) = cfg-run (step d c) cs ∙ cfg-step d c

-- After any history of calls, with any readings, at most MaxHeavyJobs heavy claims are active,
-- and at most MaxHeavyJobsPerProject of each project.
pub run-opened-Capped :
    (cfg : Config) (cs : List Call) → Capped cfg (run (opened cfg) cs).governor.active
unfolding heavy_jobs
run-opened-Capped cfg cs = rw (cfg-run (opened cfg) cs) at (
    run-Sane (opened cfg) cs
      (record { jobs_capped = omega arith; project_capped = λ p. omega arith }))

-- The lease with this token was handed out and released.
abbrev pub is_released : ℕ → List Lease → Bool
is_released t ls = elim (find_lease t ls) [ none ↦ false | some l ↦ l.released ]

is_released-mark_released :
    (t u : ℕ) (ls : List Lease)
    → is_released t ls ≡ true
    → is_released t (mark_released u ls) ≡ true
unfolding find_lease mark_released
is_released-mark_released t u [] h = cc
is_released-mark_released t u (l ∷ ls) h = ground (arith, is_released-mark_released t u ls)

find_lease_below : (t n : ℕ) (ls : List Lease) → Below n ls → is_released t ls ≡ true → t < n
unfolding find_lease
find_lease_below t n [] b e = cc
find_lease_below t n (x ∷ ls) b e = ground (arith, find_lease_below t x.token ls b.1)

is_released-leased :
    (d : Desk) (c : Claim) (t : ℕ)
    → t < d.next_token
    → is_released t d.leases ≡ true
    → is_released t (leased d c).leases ≡ true
unfolding find_lease
is_released-leased d c t lt h = ground arith

step-is_released :
    (d : Desk) (c : Call) (t : ℕ)
    → Kept d
    → is_released t d.leases ≡ true
    → is_released t (step d c).leases ≡ true
unfolding step release_lease
step-is_released d (acquires reading c) t v h =
    acquire_lease_cases (λ e. is_released t e.leases ≡ true) d reading c h
      λ _ _ _. is_released-leased d c t (find_lease_below t d.next_token d.leases v.fresh h) h
step-is_released d (releases u) t v h = ground (arith, is_released-mark_released t u d.leases)

run-is_released :
    (d : Desk) (cs : List Call) (t : ℕ)
    → Kept d
    → is_released t d.leases ≡ true
    → is_released t (run d cs).leases ≡ true
unfolding run
run-is_released d [] t v h = h
run-is_released d (c ∷ cs) t v h =
    run-is_released (step d c) cs t (step-Kept d c v) (step-is_released d c t v h)

release_lease_again : (d : Desk) (t : ℕ) → is_released t d.leases ≡ true → release_lease d t ≡ d
unfolding release_lease
release_lease_again d t h = ground arith

-- Where the active claims agree with the leases (Kept), a lease that was released once is spent:
-- whatever happens later, a claim with the same id acquired anew included, its Release changes
-- nothing.
pub release_lease_spent :
    (d : Desk) (cs : List Call) (t : ℕ)
    → Kept d
    → is_released t d.leases ≡ true
    → release_lease (run d cs) t ≡ run d cs
release_lease_spent d cs t v h = release_lease_again (run d cs) t (run-is_released d cs t v h)

exists-delete :
    (j k : ℕ) (active : Active)
    → Distinct (ids active)
    → exists j (delete k active) ≡ (if j == k then false else exists j active)
exists-delete j k active d =
    rw (exists-contains j (delete k active), ids-delete k active, exists-contains j active)
      (contains-remove j k (ids active) d)

-- The desk after the first Release of lease `l`, with token `t`.
abbrev returned : Desk → ℕ → Lease → Desk
returned d t l = record d {
  governor = record { cfg = d.governor.cfg; active = delete l.claim_id d.governor.active };
  leases = mark_released t d.leases;
}

release_lease-returned :
    (d : Desk) (t : ℕ) (l : Lease)
    → find_lease t d.leases ≡ some l
    → l.released ≡ false
    → release_lease d t ≡ returned d t l
unfolding release_lease release
release_lease-returned d t l e h = ground arith

is_released-mark_found :
    (t : ℕ) (ls : List Lease) (l : Lease)
    → find_lease t ls ≡ some l
    → is_released t (mark_released t ls) ≡ true
unfolding find_lease mark_released
is_released-mark_found t [] l e = cc
is_released-mark_found t (x ∷ ls) l e = ground (arith, is_released-mark_found t ls l)

-- Where the active claims agree with the leases (Kept), Release of a lease that is not yet
-- released takes its claim, and no other, off the active ones, and marks the lease.
pub release_lease_frees :
    (d : Desk) (t k : ℕ) (l : Lease)
    → Kept d
    → find_lease t d.leases ≡ some l
    → l.released ≡ false
    → (exists l.claim_id d.governor.active ≡ true)
      × (exists k (release_lease d t).governor.active
          ≡ (if k == l.claim_id then false else exists k d.governor.active))
      × (is_released t (release_lease d t).leases ≡ true)
release_lease_frees d t k l v e h =
    let d' = release_lease-returned d t l e h in
    let listed = subst Distinct (sym v.held) v.once in
    (
      exists-contains l.claim_id d.governor.active
          ∙ ap (contains l.claim_id) v.held
          ∙ find_lease-pending t d.leases l e h,
      rw d' (exists-delete k l.claim_id d.governor.active listed),
      rw d' (is_released-mark_found t d.leases l e),
    )
