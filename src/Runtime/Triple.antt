-- ===== src/Runtime/Triple.antt =====
-- From a world that meets `P`, the call ends as `Q` and `X` say: a rule for each way to build a call.
use limon_backend.Base.{Bool, true, false, ◌≡◌, refl, if◌then◌else◌}
use limon_backend.Runtime.Errors.{Error, Result, ok, err}
use limon_backend.Runtime.World.{Env, World, Exec, continue, handle, pure, raise, ask, ◌>>=◌, try}
use limon_backend.Runtime.Ends.{Ends, Ends-weaken, Ends-both}
use limon_backend.Runtime.Keeps.{Keeps, Keeps-Ends}

pub record Triple {A : Type 0} (P : World → Type 0) (m : Exec A) (Q : A → World → Type 0)
    (X : Error → World → Type 0) : Type 0 where
  pub at : (e : Env) (w : World) → P w → Ends Q X (m e w)

module _ {A : Type 0} {Q : A → World → Type 0} {X : Error → World → Type 0} where
  handled :
      (X' : Error → World → Type 0) (r : Result A × World) (h : Error → Exec A) (e : Env)
      → Ends Q X' r
      → ((x : Error) → Triple (X' x) (h x) Q X)
      → Ends Q X (handle r.0 h e r.1)
  handled X' (ok a, w) h e p k = p
  handled X' (err x, w) h e p k = (k x).at e w p

module _ {A B : Type 0} {Q : B → World → Type 0} {X : Error → World → Type 0} where
  continued :
      (R : A → World → Type 0) (r : Result A × World) (f : A → Exec B) (e : Env)
      → Ends R X r
      → ((a : A) → Triple (R a) (f a) Q X)
      → Ends Q X (continue r.0 f e r.1)
  continued R (ok a, w) f e p k = (k a).at e w p
  continued R (err x, w) f e p k = p

module _ {A : Type 0} {P : World → Type 0} {Q : A → World → Type 0}
    {X : Error → World → Type 0} where
  pub Triple-pure : (a : A) → ((w : World) → P w → Q a w) → Triple P (pure a) Q X
  unfolding pure
  Triple-pure a h = record { at = λ e w p. h w p }

  pub Triple-raise : (x : Error) → ((w : World) → P w → X x w) → Triple P (raise x) Q X
  unfolding raise
  Triple-raise x h = record { at = λ e w p. h w p }

  pub Triple-ask :
      (f : Env → World → A) → ((e : Env) (w : World) → P w → Q (f e w) w) → Triple P (ask f) Q X
  unfolding ask
  Triple-ask f h = record { at = λ e w p. h e w p }

  pub Triple-if :
      (b : Bool) (m n : Exec A)
      → (b ≡ true → Triple P m Q X)
      → (b ≡ false → Triple P n Q X)
      → Triple P (if b then m else n) Q X
  Triple-if true m n h k = h refl
  Triple-if false m n h k = k refl

  pub Triple-before :
      (P' : World → Type 0) {m : Exec A}
      → ((w : World) → P w → P' w)
      → Triple P' m Q X
      → Triple P m Q X
  Triple-before P' h t = record { at = λ e w p. t.at e w (h w p) }

  pub Triple-after :
      (Q' : A → World → Type 0) (X' : Error → World → Type 0) {m : Exec A}
      → Triple P m Q' X'
      → ((a : A) (w : World) → Q' a w → Q a w)
      → ((x : Error) (w : World) → X' x w → X x w)
      → Triple P m Q X
  Triple-after Q' X' {m} t q x = record {
    at = λ e w p. Ends-weaken Q' Q X' X (m e w) q x (t.at e w p);
  }

  -- The handler runs in the world that the exception left.
  pub Triple-try :
      (X' : Error → World → Type 0) {m : Exec A} {h : Error → Exec A}
      → Triple P m Q X'
      → ((x : Error) → Triple (X' x) (h x) Q X)
      → Triple P (try m h) Q X
  unfolding try
  Triple-try X' {m} {h} t k = record {
    at = λ e w p. let r = m e w in handled X' r h e (t.at e w p) k;
  }

module _ {A : Type 0} {P : World → Type 0} where
  -- A call that keeps `P`.
  pub Triple-keeps : {m : Exec A} → Keeps P m → Triple P m (λ _. P) (λ _. P)
  Triple-keeps {m} k = record { at = λ e w p. Keeps-Ends P m e w k p }

module _ {A B : Type 0} {P : World → Type 0} {Q : B → World → Type 0}
    {X : Error → World → Type 0} where
  pub Triple-bind :
      (R : A → World → Type 0) {m : Exec A} {f : A → Exec B}
      → Triple P m R X
      → ((a : A) → Triple (R a) (f a) Q X)
      → Triple P (m >>= f) Q X
  unfolding ◌>>=◌
  Triple-bind R {m} {f} t k = record {
    at = λ e w p. let r = m e w in continued R r f e (t.at e w p) k;
  }

module _ {A : Type 0} {P : World → Type 0} {Q Q' : A → World → Type 0}
    {X X' : Error → World → Type 0} where
  -- Two facts of one call.
  pub Triple-both :
      {m : Exec A}
      → Triple P m Q X
      → Triple P m Q' X'
      → Triple P m (λ a w. Q a w × Q' a w) (λ x w. X x w × X' x w)
  Triple-both {m} t u = record {
    at = λ e w p. Ends-both Q Q' X X' (m e w) (t.at e w p) (u.at e w p);
  }

module _ {A : Type 0} {P : World → Type 0} {Q : A → World → Type 0}
    {X : Error → World → Type 0} where
  -- A fact that is not of the world.
  pub Triple-given : (C : Type 0) {m : Exec A} → (C → Triple P m Q X) → Triple (λ w. P w × C) m Q X
  Triple-given C t = record { at = λ e w p. (t p.1).at e w p.0 }
