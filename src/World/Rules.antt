-- ===== src/World/Rules.antt =====
-- Rules for statements about what a method does to the world, whether it returns or throws.
use nestjs_learn.Prelude.{Bool, true, false, Option, none, some}
use nestjs_learn.World.Exec.{
  World, M, Result, ok, err, Exception, run_next, lift, require, throw_if, roll_back,
}

-- The method returned in a world where `Q` holds of its result, or threw in one where `I` holds.
abbrev pub Ends : {A : Type 0} → (World → Type 0) → (A → World → Type 0) → Result A × World → Type 0
Ends I Q (ok a, w) = Q a w
Ends I Q (err e, w) = I w

-- The world satisfies `I` however the method ended.
abbrev pub Keeps : {A : Type 0} → (World → Type 0) → Result A × World → Type 0
Keeps I p = Ends I (λ _. I) p

module _ {A : Type 0} (I : World → Type 0) where
  -- A sequence: its first step, by its outcome, and the rest from every world that it may leave.
  pub next :
      {B : Type 0} (R : A → World → Type 0) (Q : B → World → Type 0) (p : Result A × World)
      (f : A → M B)
      → Ends I R p
      → ((a : A) (w : World) → R a w → Ends I Q (f a w))
      → Ends I Q (run_next p.0 f p.1)
  next R Q (ok a, w) f r k = k a w r
  next R Q (err e, w) f r k = r

  pub next-Keeps :
      {B : Type 0} (p : Result A × World) (f : A → M B)
      → Keeps I p
      → ((a : A) (w : World) → I w → Keeps I (f a w))
      → Keeps I (run_next p.0 f p.1)
  next-Keeps p f = next (λ _. I) (λ _. I) p f

  pub require-Keeps :
      (P : World → Type 0)
      → ((w : World) → P w → I w)
      → (o : Option A) (e : Exception) (w : World) → P w
      → Ends I (λ _. P) (require o e w)
  require-Keeps P weak none e w p = weak w p
  require-Keeps P weak (some a) e w p = p

  pub lift-Keeps :
      (P : World → Type 0)
      → ((w : World) → P w → I w)
      → (r : Result A) (w : World) → P w
      → Ends I (λ _. P) (lift r w)
  lift-Keeps P weak (ok a) w p = p
  lift-Keeps P weak (err e) w p = weak w p

  pub roll_back-Keeps :
      (v : World) (p : Result A × World) → I v → Keeps I p → Keeps I (roll_back v p.0 p.1)
  roll_back-Keeps v (ok a, w) i r = r
  roll_back-Keeps v (err e, w) i r = i

  -- What holds after a method, however it ended.
  pub world_after : (p : Result A × World) → Keeps I p → I p.1
  world_after (ok a, v) r = r
  world_after (err e, v) r = r

  pub Keeps-of_world : (p : Result A × World) → I p.1 → Keeps I p
  Keeps-of_world (ok a, v) r = r
  Keeps-of_world (err e, v) r = r

pub throw_if-Keeps :
    (I : World → Type 0) (b : Bool) (e : Exception) (w : World) → I w → Keeps I (throw_if b e w)
throw_if-Keeps I true e w i = i
throw_if-Keeps I false e w i = i
