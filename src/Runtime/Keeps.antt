-- ===== src/Runtime/Keeps.antt =====
-- Calls that keep a condition on the world, however they end: a rule for each way to build a call,
-- collected for `search`.
use limon_backend.Base.{Bool, true, false, if◌then◌else◌}
use limon_backend.Runtime.Errors.{Error, Result, ok, err}
use limon_backend.Runtime.World.{
  Env, World, Exec, continue, handle, pure, raise, lift, ask, ◌>>=◌, try,
}
use limon_backend.Runtime.Ends.{Ends}

pub record Keeps {A : Type 0} (P : World → Type 0) (m : Exec A) : Type 0 where
  pub at : (e : Env) (w : World) → P w → P (m e w).1

module _ {A : Type 0} (P : World → Type 0) where
  pub Keeps-pure : (a : A) → Keeps P (pure a)
  unfolding pure
  Keeps-pure a = record { at = λ e w h. h }

  pub Keeps-raise : (x : Error) → Keeps P (raise {A = A} x)
  unfolding raise
  Keeps-raise x = record { at = λ e w h. h }

  pub Keeps-lift : (r : Result A) → Keeps P (lift r)
  unfolding lift
  Keeps-lift r = record { at = λ e w h. h }

  pub Keeps-ask : (f : Env → World → A) → Keeps P (ask f)
  unfolding ask
  Keeps-ask f = record { at = λ e w h. h }

  pub Keeps-if : (b : Bool) (m n : Exec A) → Keeps P m → Keeps P n → Keeps P (if b then m else n)
  Keeps-if true m n h k = h
  Keeps-if false m n h k = k

  handled :
      (r : Result A) (h : Error → Exec A) (e : Env) (w : World)
      → ((x : Error) → Keeps P (h x))
      → P w
      → P (handle r h e w).1
  handled (ok a) h e w k p = p
  handled (err x) h e w k p = (k x).at e w p

  pub Keeps-try :
      (m : Exec A) (h : Error → Exec A)
      → Keeps P m
      → ((x : Error) → Keeps P (h x))
      → Keeps P (try m h)
  unfolding try
  Keeps-try m h k l = record {
    at = λ e w p. let (r, w') = m e w in handled r h e w' l (k.at e w p);
  }

  returns : (r : Result A × World) → P r.1 → Ends (λ _. P) (λ _. P) r
  returns (ok a, w) p = p
  returns (err x, w) p = p

  pub Keeps-Ends :
      (m : Exec A) (e : Env) (w : World) → Keeps P m → P w → Ends (λ _. P) (λ _. P) (m e w)
  Keeps-Ends m e w k p = returns (m e w) (k.at e w p)

module _ {A B : Type 0} (P : World → Type 0) where
  continued :
      (r : Result A) (f : A → Exec B) (e : Env) (w : World)
      → ((a : A) → Keeps P (f a))
      → P w
      → P (continue r f e w).1
  continued (ok a) f e w k p = (k a).at e w p
  continued (err x) f e w k p = p

  pub Keeps-bind :
      (m : Exec A) (f : A → Exec B) → Keeps P m → ((a : A) → Keeps P (f a)) → Keeps P (m >>= f)
  unfolding ◌>>=◌
  Keeps-bind m f k l = record {
    at = λ e w p. let (r, w') = m e w in continued r f e w' l (k.at e w p);
  }

pub ruleset keeps_rules =
    (Keeps-pure, Keeps-raise, Keeps-lift, Keeps-ask, Keeps-if, Keeps-try, Keeps-bind)
