-- ===== src/Runtime/Ends.antt =====
-- How a call ends: a condition on the value and the world of a return, and one on the exception and
-- the world of a raise.
use limon_backend.Base.{Bool, true, false, ◌≡◌, ◌∷◌, refl, if◌then◌else◌}
use limon_backend.Runtime.Errors.{Error, Result, ok, err}
use limon_backend.Runtime.World.{Env, World, Exec, Call, continue, pure, ask, emit, ◌>>=◌, ◌>>◌}

module _ {A : Type 0} where
  abbrev pub Ends : (A → World → Type 0) → (Error → World → Type 0) → Result A × World → Type 0
  Ends Q X (ok a, w) = Q a w
  Ends Q X (err x, w) = X x w

  pub Ends-weaken :
      (Q Q' : A → World → Type 0) (X X' : Error → World → Type 0) (r : Result A × World)
      → ((a : A) (w : World) → Q a w → Q' a w)
      → ((x : Error) (w : World) → X x w → X' x w)
      → Ends Q X r
      → Ends Q' X' r
  Ends-weaken Q Q' X X' (ok a, w) q x h = q a w h
  Ends-weaken Q Q' X X' (err y, w) q x h = x y w h

  -- Both of two conditions.
  pub Ends-both :
      (Q Q' : A → World → Type 0) (X X' : Error → World → Type 0) (r : Result A × World)
      → Ends Q X r
      → Ends Q' X' r
      → Ends (λ a w. Q a w × Q' a w) (λ x w. X x w × X' x w) r
  Ends-both Q Q' X X' (ok a, w) h k = (h, k)
  Ends-both Q Q' X X' (err x, w) h k = (h, k)

module _ {B : Type 0} (Q : B → World → Type 0) (X : Error → World → Type 0) where
  continued :
      {A : Type 0} (R : A → World → Type 0) (r : Result A × World) (f : A → Exec B) (e : Env)
      → Ends R X r
      → ((a : A) (w : World) → R a w → Ends Q X (f a e w))
      → Ends Q X (continue r.0 f e r.1)
  continued R (ok a, w) f e h k = k a w h
  continued R (err x, w) f e h k = h

  pub Ends-if :
      (b : Bool) (m n : Exec B) (e : Env) (w : World)
      → (b ≡ true → Ends Q X (m e w))
      → (b ≡ false → Ends Q X (n e w))
      → Ends Q X ((if b then m else n) e w)
  Ends-if true m n e w h k = h refl
  Ends-if false m n e w h k = k refl

  -- One call after another, in one environment.
  pub Ends-bind :
      {A : Type 0} (R : A → World → Type 0) (m : Exec A) (f : A → Exec B) (e : Env) (w : World)
      → Ends R X (m e w)
      → ((a : A) (w' : World) → R a w' → Ends Q X (f a e w'))
      → Ends Q X ((m >>= f) e w)
  unfolding ◌>>=◌
  Ends-bind R m f e w h k = let r = m e w in continued R r f e h k

  pub Ends-ask :
      {A : Type 0} (g : Env → World → A) (f : A → Exec B) (e : Env) (w : World)
      → Ends Q X (f (g e w) e w)
      → Ends Q X ((ask g >>= f) e w)
  unfolding ask ◌>>=◌
  Ends-ask g f e w h = h

  pub Ends-emit :
      (c : Call) (m : Exec B) (e : Env) (w : World)
      → Ends Q X (m e (record w { trace = c ∷ w.trace }))
      → Ends Q X ((emit c >> m) e w)
  unfolding emit ◌>>=◌
  Ends-emit c m e w h = h

  pub Ends-pure : (a : B) (e : Env) (w : World) → Q a w → Ends Q X (pure a e w)
  unfolding pure
  Ends-pure a e w h = h

-- Nothing is said of how a call ends.
pub Ends-any : {A : Type 0} (r : Result A × World) → Ends (λ _ _. Unit) (λ _ _. Unit) r
Ends-any (ok a, w) = tt
Ends-any (err x, w) = tt
