-- ===== src/World/Laws.antt =====
-- How a composed method comes to return: each of its steps did.
use nestjs_learn.Prelude.{◌≡◌, ◌⊎◌, inl, inr, refl, arith, subst, sym}
use nestjs_learn.World.Exec.{World, M, Result, ok, err, Exception, run_next}

-- To split on the outcome of a step and keep the equation.
pub Result-cases :
    {A : Type 0} (p : Result A × World)
    → ((a : A) × (w : World) × (p ≡ (ok a, w))) ⊎ ((e : Exception) × (w : World) × (p ≡ (err e, w)))
Result-cases (ok a, w) = inl (a, w, refl)
Result-cases (err e, w) = inr (e, w, refl)

-- A sequence that returns is a first step that returns, and a rest that does.
pub step_ok :
    {A B : Type 0} (p : Result A × World) (f : A → M B) (w' : World) (b : B)
    → run_next p.0 f p.1 ≡ (ok b, w')
    → (a : A) × (w1 : World) × (p ≡ (ok a, w1)) × (f a w1 ≡ (ok b, w'))
step_ok (ok a, w1) f w' b e = (a, w1, refl, e)
step_ok (err x, w1) f w' b e = absurd (ground arith)

pub outcome_cases :
    {A : Type 0} (r : Result A) → ((a : A) × (r ≡ ok a)) ⊎ ((e : Exception) × (r ≡ err e))
outcome_cases (ok a) = inl (a, refl)
outcome_cases (err e) = inr (e, refl)

-- A sequence of two steps that leave a world as it is leaves it too, however it ends.
pub run_next-world :
    {A B : Type 0} (p : Result A × World) (f : A → M B) (w : World)
    → p.1 ≡ w
    → ((a : A) → (f a w).1 ≡ w)
    → (run_next p.0 f p.1).1 ≡ w
run_next-world (ok a, v) f w h k = subst (λ (x : World). (f a x).1 ≡ w) (sym h) (k a)
run_next-world (err e, v) f w h k = h

-- A sequence goes on from a first step that returns.
pub run_next-returns :
    {A B : Type 0} (p : Result A × World) (a : A) (f : A → M B)
    → p.0 ≡ ok a
    → run_next p.0 f p.1 ≡ f a p.1
run_next-returns (ok x, w) a f h = let same : x ≡ a = ground arith in rw same refl
run_next-returns (err e, w) a f h = absurd (ground arith)
