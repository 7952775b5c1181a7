-- ===== src/Action/Hoare.antt =====
-- Statements about the calls that return, by what holds before and after them.
use ldb_backend_hack.Base.{Bool, true, false, if◌then◌else◌, ◌≡◌, ap, subst}
use ldb_backend_hack.Model.{World}
use ldb_backend_hack.Action.{Exception, raise, Result, ok, raised, Action, pure, ◌>>=◌}
use ldb_backend_hack.Action.Steps.{bind-eq-ok, raised_ne_ok}

-- Wherever `m` starts from a state with `P` and returns, the answer and the state have `Q`.
pub record Hoare (P : World → Type 0) {A : Type 0} (m : Action A) (Q : A → World → Type 0)
    : Type 0 where
  pub gives : (w w' : World) (a : A) → P w → m w ≡ (ok a, w') → Q a w'

module _ {A B : Type 0} {P : World → Type 0} {R : A → World → Type 0} {Q : B → World → Type 0} where
  pub Hoare-bind :
      (m : Action A) (f : A → Action B)
      → Hoare P m R
      → ((a : A) → Hoare (R a) (f a) Q)
      → Hoare P (m >>= f) Q
  Hoare-bind m f km kf = record {
    gives = λ w w' b h e.
        let (a, v, e₁, e₂) = bind-eq-ok m f e in (kf a).gives v w' b (km.gives w v a h e₁) e₂;
  }

module _ {A : Type 0} {P : World → Type 0} where
  pub Hoare-pure :
      (a : A) (Q : A → World → Type 0) → ((w : World) → P w → Q a w) → Hoare P (pure a) Q
  unfolding pure
  Hoare-pure a Q k = record {
    gives = λ w w' b h e. subst (λ (x : Result A × World). go x.0 x.1) e (k w h);
  }
    where
      go : Result A → World → Type 0
      go (ok b) w' = Q b w'
      go (raised x) w' = Unit

-- The state after a call, where nothing but the answer is asked for.
module _ {A : Type 0} {P : World → Type 0} {Q : World → Type 0} where
  pub Hoare-always : (m : Action A) → ((w : World) → P w → Q (m w).1) → Hoare P m (λ _. Q)
  Hoare-always m k = record {
    gives = λ w w' a h e. subst Q (ap (λ (x : Result A × World). x.1) e) (k w h);
  }

module _ {A : Type 0} {P : World → Type 0} {Q : A → World → Type 0} where
  pub Hoare-raise : (e : Exception) → Hoare P (raise e) Q
  unfolding raise
  Hoare-raise e = record {
    gives = λ w w' a h x. absurd (raised_ne_ok e a (ap (λ (y : Result A × World). y.0) x));
  }

  pub Hoare-if :
      (b : Bool) (m n : Action A) → Hoare P m Q → Hoare P n Q → Hoare P (if b then m else n) Q
  Hoare-if true m n km kn = km
  Hoare-if false m n km kn = kn

pub Hoare-any : {A : Type 0} {P : World → Type 0} (m : Action A) → Hoare P m (λ a w. Unit {0})
Hoare-any m = record { gives = λ w w' a h e. tt }
