-- ===== src/Action/Safe.antt =====
-- Statements about every way a call can end: with an answer, or with an exception.
use ldb_backend_hack.Base.{Bool, true, false, if◌then◌else◌, ◌≡◌, refl}
use ldb_backend_hack.Model.{World}
use ldb_backend_hack.Action.{Exception, Result, ok, raised, Action, pure, raise, lift, ask, ◌>>=◌}

abbrev pub Ends : {A : Type 0} → (A → World → Type 0) → (World → Type 0) → Result A × World → Type 0
Ends Q E (ok a, w) = Q a w
Ends Q E (raised e, w) = E w

-- From a state with `P` the call returns an answer and a state with `Q`, or raises an exception
-- and leaves a state with `E`.
pub record Safe (P : World → Type 0) {A : Type 0} (m : Action A) (Q : A → World → Type 0)
    (E : World → Type 0) : Type 0 where
  pub at : (w : World) → P w → Ends Q E (m w)

module _ {A B : Type 0} {E : World → Type 0} {R : A → World → Type 0} {Q : B → World → Type 0} where
  continue :
      (r : Result A) (w : World) (f : A → Action B)
      → ((a : A) → Safe (R a) (f a) Q E)
      → Ends R E (r, w)
      → Ends Q E ((lift r >>= f) w)
  unfolding ◌>>=◌
  continue (ok a) w f kf h = (kf a).at w h
  continue (raised e) w f kf h = h

module _ {A B : Type 0} {P E : World → Type 0} {R : A → World → Type 0}
    {Q : B → World → Type 0} where
  pub Safe-bind :
      (m : Action A) (f : A → Action B)
      → Safe P m R E
      → ((a : A) → Safe (R a) (f a) Q E)
      → Safe P (m >>= f) Q E
  unfolding ◌>>=◌
  Safe-bind m f km kf = record { at = λ w h. continue (m w).0 (m w).1 f kf (km.at w h) }

module _ {A : Type 0} {P : World → Type 0} {Q : A → World → Type 0} {E : World → Type 0} where
  pub Safe-pure : (a : A) → ((w : World) → P w → Q a w) → Safe P (pure a) Q E
  unfolding pure
  Safe-pure a k = record { at = k }

  pub Safe-raise : (e : Exception) → ((w : World) → P w → E w) → Safe P (raise e) Q E
  unfolding raise
  Safe-raise e k = record { at = k }

  pub Safe-lift :
      (r : Result A)
      → ((a : A) (w : World) → r ≡ ok a → P w → Q a w)
      → ((w : World) → P w → E w)
      → Safe P (lift r) Q E
  unfolding lift
  Safe-lift (ok a) k j = record { at = λ w. k a w refl }
  Safe-lift (raised e) k j = record { at = j }

  -- A query: what it yields is known of the state.
  pub Safe-ask :
      (f : World → Result A)
      → ((w : World) (a : A) → f w ≡ ok a → P w → Q a w)
      → ((w : World) → P w → E w)
      → Safe P (ask f) Q E
  unfolding ask
  Safe-ask f k j = record { at = λ w h. go w (f w) refl h }
    where
      go : (w : World) (r : Result A) → f w ≡ r → P w → Ends Q E (r, w)
      go w (ok a) e h = k w a e h
      go w (raised x) e h = j w h

  pub Safe-if :
      (b : Bool) (m n : Action A)
      → (b ≡ true → Safe P m Q E)
      → (b ≡ false → Safe P n Q E)
      → Safe P (if b then m else n) Q E
  Safe-if true m n km kn = km refl
  Safe-if false m n km kn = kn refl

  -- The two ends may be weakened.
  pub Safe-weaken :
      {S : A → World → Type 0} {F : World → Type 0} (m : Action A)
      → Safe P m S F
      → ((a : A) (w : World) → S a w → Q a w)
      → ((w : World) → F w → E w)
      → Safe P m Q E
  Safe-weaken {S} {F} m km k j = record { at = λ w h. go (m w).0 (m w).1 (km.at w h) }
    where
      go : (r : Result A) (w : World) → Ends S F (r, w) → Ends Q E (r, w)
      go (ok a) w h = k a w h
      go (raised e) w h = j w h

  pub Safe-from :
      {S : World → Type 0} (m : Action A) → Safe S m Q E → ((w : World) → P w → S w) → Safe P m Q E
  Safe-from m km k = record { at = λ w h. km.at w (k w h) }

-- The state after a call, however it ends.
module _ {A : Type 0} {P Q : World → Type 0} where
  pub Safe-always : (m : Action A) → ((w : World) → P w → Q (m w).1) → Safe P m (λ _. Q) Q
  Safe-always m k = record { at = λ w h. go (m w).0 (m w).1 (k w h) }
    where
      go : (r : Result A) (v : World) → Q v → Ends (λ (_ : A). Q) Q (r, v)
      go (ok a) v h = h
      go (raised e) v h = h

  -- What holds at both ends holds of the state.
  pub Safe_after : {m : Action A} → Safe P m (λ _. Q) Q → (w : World) → P w → Q (m w).1
  Safe_after {m} k w h = go (m w).0 (m w).1 (k.at w h)
    where
      go : (r : Result A) (v : World) → Ends (λ (_ : A). Q) Q (r, v) → Q v
      go (ok a) v h = h
      go (raised e) v h = h
