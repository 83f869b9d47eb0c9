-- ===== src/Scheduler/Aging.antt =====
-- internal/scheduler/scheduler.go: how a task that waits becomes more urgent.
use mar.Prelude.{ℕ, ◌+◌, ◌-◌, ◌*◌, ◌/◌, ◌≤◌, ◌<◌, ◌≡◌, List, arith, ◌==◌, inl, inr, Bool-cases}
use native.Mathlib.Nat.{le-div_iff_mul-le, div-mul-le_self}
use mar.Scheduler.{effective_priority, priority_rank}

pub priority_rank-bound : (priority : List ℕ) → priority_rank priority ≤ 3
unfolding priority_rank
priority_rank-bound priority = ground arith

steps-monotone : (a b k : ℕ) → 0 < k → a ≤ b → a / k ≤ b / k
steps-monotone a b k pos le =
    (le-div_iff_mul-le {k = k} {x = a / k} {y = b} pos).1 (omega (arith, div-mul-le_self a k))

-- A task that waits never becomes less urgent.
effective_priority-monotone :
    (priority : List ℕ) (since now later aging : ℕ)
    → now ≤ later
    → effective_priority priority since later aging ≤ effective_priority priority since now aging
unfolding effective_priority
effective_priority-monotone priority since now later aging le = elim (Bool-cases (aging == 0)) [
  | inl z ↦ ground arith
  | inr n ↦
      let steps = steps-monotone (now - since) (later - since) aging (ground arith) (omega arith) in
      let base = priority_rank priority in ground arith
]

-- With a positive aging interval, a task that has waited three intervals is as urgent as any,
-- whatever its priority says.
pub effective_priority-aged :
    (priority : List ℕ) (since now aging : ℕ)
    → 0 < aging
    → since + 3 * aging ≤ now
    → effective_priority priority since now aging ≡ 0
unfolding effective_priority
effective_priority-aged priority since now aging pos waited =
    let steps : 3 ≤ (now - since) / aging =
      (le-div_iff_mul-le {k = aging} {x = 3} {y = now - since} pos).1 (omega arith) in
    let base = priority_rank-bound priority in ground arith
