-- ===== src/Scheduler/Order.antt =====
-- internal/scheduler/scheduler.go: the order in which selectTask sorts the candidates.
use mar.Prelude.{
  ℕ, suc, ◌≤◌, ◌<◌, ◌≡◌, refl, sym, ◌∙◌, ◌⊎◌, Bool, true, false, not, Option, none, some, ◌==◌,
  if◌then◌else◌, arith, ltb,
}
use mar.Scheduler.{Candidate, less, dispatched_before}

-- One key decides, and the rest where it is equal.
abbrev lex : ℕ → ℕ → Bool → Bool
lex a b rest = if not (a == b) then ltb a b else rest

-- A project that was never dispatched comes first, then the one dispatched longest ago.
abbrev pub dispatch_key : Option ℕ → ℕ
dispatch_key none = 0
dispatch_key (some d) = suc d

dispatched_before-lex :
    (a b : Option ℕ) (rest : Bool)
    → dispatched_before a b rest ≡ lex (dispatch_key a) (dispatch_key b) rest
dispatched_before-lex none none rest = refl
dispatched_before-lex none (some b) rest = ground arith
dispatched_before-lex (some a) none rest = ground arith
dispatched_before-lex (some a) (some b) rest = ground arith

abbrev lex_less : Candidate → Candidate → Bool
lex_less a b = lex a.effective b.effective (
    lex (dispatch_key a.last_dispatch) (dispatch_key b.last_dispatch) (
      lex a.task.updated_at b.task.updated_at
        (lex a.task.project_id b.task.project_id (ltb a.task.id b.task.id))))

less-lex : (a b : Candidate) → less a b ≡ lex_less a b
unfolding less
less-lex a b =
    rw
      (dispatched_before-lex a.last_dispatch b.last_dispatch (
        lex a.task.updated_at b.task.updated_at
          (lex a.task.project_id b.task.project_id (ltb a.task.id b.task.id))))
      refl

lex_trans :
    (a b c : ℕ) (r s t : Bool)
    → (r ≡ true → s ≡ true → t ≡ true)
    → lex a b r ≡ true
    → lex b c s ≡ true
    → lex a c t ≡ true
lex_trans a b c r s t step p q = ground arith

pub less_trans : (a b c : Candidate) → less a b ≡ true → less b c ≡ true → less a c ≡ true
less_trans a b c p q =
    less-lex a c
    ∙ lex_trans a.effective b.effective c.effective _ _ _
        (lex_trans (dispatch_key a.last_dispatch) (dispatch_key b.last_dispatch)
          (dispatch_key c.last_dispatch) _ _ _
          (lex_trans a.task.updated_at b.task.updated_at c.task.updated_at _ _ _ (
            lex_trans a.task.project_id b.task.project_id c.task.project_id _ _ _
              (λ x y. ground arith))))
        (sym (less-lex a b) ∙ p) (sym (less-lex b c) ∙ q)

lex_co_trans :
    (a b c : ℕ) (r s t : Bool)
    → (r ≡ false → s ≡ false → t ≡ false)
    → lex b a r ≡ false
    → lex c b s ≡ false
    → lex c a t ≡ false
lex_co_trans a b c r s t step p q = ground arith

pub less_co_trans : (a b c : Candidate) → less b a ≡ false → less c b ≡ false → less c a ≡ false
less_co_trans a b c p q =
    less-lex c a
    ∙ lex_co_trans a.effective b.effective c.effective _ _ _
        (lex_co_trans (dispatch_key a.last_dispatch) (dispatch_key b.last_dispatch)
          (dispatch_key c.last_dispatch) _ _ _
          (lex_co_trans a.task.updated_at b.task.updated_at c.task.updated_at _ _ _ (
            lex_co_trans a.task.project_id b.task.project_id c.task.project_id _ _ _
              (λ x y. ground arith))))
        (sym (less-lex b a) ∙ p) (sym (less-lex c b) ∙ q)

pub less_irrefl : (a : Candidate) → less a a ≡ false
less_irrefl a = less-lex a a ∙ ground arith

-- Candidates of different projects are ordered.
pub less_total :
    (a b : Candidate) → less a b ≡ false → less b a ≡ false → a.task.project_id ≡ b.task.project_id
less_total a b p q =
    let p' = sym (less-lex a b) ∙ p in let q' = sym (less-lex b a) ∙ q in ground arith

-- What a candidate that no other precedes has to show: the priority, and then the dispatch.
pub less_first :
    (a b : Candidate)
    → less b a ≡ false
    → (a.effective < b.effective)
      ⊎ ((a.effective ≡ b.effective)
          × (dispatch_key a.last_dispatch ≤ dispatch_key b.last_dispatch))
less_first a b p = let p' = sym (less-lex b a) ∙ p in ground arith
