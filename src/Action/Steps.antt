-- ===== src/Action/Steps.antt =====
-- One step of a `do` block, when it is known how its first action ends.
use ldb_backend_hack.Base.{◌≡◌, refl, sym, ap, ◌⊎◌, inl, inr}
use ldb_backend_hack.Model.{World}
use ldb_backend_hack.Action.{Exception, Result, ok, raised, Action, ask, lift, ◌>>=◌}

pub raised_ne_ok : {A : Type 0} (e : Exception) (a : A) → raised e ≡ ok a → ⊥
raised_ne_ok e a h = cc

pub ok_injective : {A : Type 0} {a b : A} → ok a ≡ ok b → a ≡ b
ok_injective h = cc

pub Result-cases :
    {A : Type 0} (r : Result A) → ((a : A) × (r ≡ ok a)) ⊎ ((e : Exception) × (r ≡ raised e))
Result-cases (ok a) = inl (a, refl)
Result-cases (raised e) = inr (e, refl)

module _ {A B : Type 0} where
  continue : (A → Action B) → Result A × World → Result B × World
  continue f (r, w) = (lift r >>= f) w

  pub bind_ok :
      (m : Action A) (f : A → Action B) {w w' : World} {a : A}
      → m w ≡ (ok a, w')
      → (m >>= f) w ≡ f a w'
  unfolding ◌>>=◌ continue
  bind_ok m f e = ap (continue f) e

  pub bind_raised :
      (m : Action A) (f : A → Action B) {w w' : World} {e : Exception}
      → m w ≡ (raised e, w')
      → (m >>= f) w ≡ (raised e, w')
  unfolding ◌>>=◌ continue
  bind_raised m f e = ap (continue f) e

  -- What holds after a `do` block, by how its first action ends.
  pub bind_elim :
      (m : Action A) (f : A → Action B) (w : World) (C : Result B × World → Type 0)
      → ((a : A) (w' : World) → m w ≡ (ok a, w') → C (f a w'))
      → ((e : Exception) (w' : World) → m w ≡ (raised e, w') → C (raised e, w'))
      → C ((m >>= f) w)
  unfolding ◌>>=◌ continue
  bind_elim m f w C on_ok on_raised = go (m w).0 (m w).1 refl
    where
      go : (r : Result A) (w' : World) → m w ≡ (r, w') → C (continue f (r, w'))
      go (ok a) w' e = on_ok a w' e
      go (raised x) w' e = on_raised x w' e

  -- The same where the first action is a pure computation.
  pub lift_elim :
      (r : Result A) (f : A → Action B) (w : World) (C : Result B × World → Type 0)
      → ((a : A) → r ≡ ok a → C (f a w))
      → ((e : Exception) → C (raised e, w))
      → C ((lift r >>= f) w)
  unfolding ◌>>=◌
  lift_elim (ok a) f w C on_ok on_raised = on_ok a refl
  lift_elim (raised e) f w C on_ok on_raised = on_raised e

  -- The same where it is a query.
  pub ask_elim :
      (q : World → Result A) (f : A → Action B) (w : World) (C : Result B × World → Type 0)
      → ((a : A) → q w ≡ ok a → C (f a w))
      → ((e : Exception) → C (raised e, w))
      → C ((ask q >>= f) w)
  unfolding ◌>>=◌ ask
  ask_elim q f w C on_ok on_raised = lift_elim (q w) f w C on_ok on_raised

  -- A `do` block that returns has returned from its first action, and from the rest.
  pub bind-eq-ok :
      (m : Action A) (f : A → Action B) {w w' : World} {b : B}
      → (m >>= f) w ≡ (ok b, w')
      → (a : A) × (v : World) × (m w ≡ (ok a, v)) × (f a v ≡ (ok b, w'))
  bind-eq-ok m f {w} {w'} {b} =
      bind_elim m f w
        (λ x. x ≡ (ok b, w') → (a : A) × (v : World) × (m w ≡ (ok a, v)) × (f a v ≡ (ok b, w')))
        (λ a v e h. (a, v, e, h))
        (λ x v e h. absurd (raised_ne_ok x b (ap (λ (y : Result B × World). y.0) h)))

module _ {A : Type 0} where
  pub ask_ok :
      (f : World → Result A) (w w' : World) {a : A} → ask f w ≡ (ok a, w') → (w' ≡ w) × (f w ≡ ok a)
  unfolding ask
  ask_ok f w w' e =
      (sym (ap (λ (x : Result A × World). x.1) e), ap (λ (x : Result A × World). x.0) e)

  pub ask_raised :
      (f : World → Result A) (w w' : World) {x : Exception} → ask f w ≡ (raised x, w') → w' ≡ w
  unfolding ask
  ask_raised f w w' e = sym (ap (λ (x : Result A × World). x.1) e)
