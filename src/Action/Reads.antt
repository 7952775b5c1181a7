-- ===== src/Action/Reads.antt =====
-- Actions that change no table: they only draw random numbers and read the clock.
use ldb_backend_hack.Base.{◌≡◌, refl, ap, ◌∙◌, Bool, true, false, if◌then◌else◌}
use ldb_backend_hack.Model.{World}
use ldb_backend_hack.Action.{Exception, Result, ok, raised, Action, pure, raise, lift, ◌>>=◌}

abbrev pub Answers : {A : Type 0} → (A → Type 0) → Result A → Type 0
Answers Q (ok a) = Q a
Answers Q (raised e) = Unit

-- Only the count of ticks differs.
abbrev pub SameTables : World → World → Type 0
SameTables w w' = w' ≡ record w { ticks = w'.ticks }

-- `m` leaves the tables alone, and its answer, if there is one, has the property.
pub record Reads {A : Type 0} (Q : A → Type 0) (m : Action A) : Type 0 where
  pub at : (w : World) → SameTables w (m w).1 × Answers Q (m w).0

abbrev pub Anything : {A : Type 0} → A → Type 0
Anything a = Unit

module _ {A : Type 0} {Q : A → Type 0} where
  pub Reads-pure : (a : A) → Q a → Reads Q (pure a)
  unfolding pure
  Reads-pure a q = record { at = λ w. (refl, q) }

  pub Reads-raise : (e : Exception) → Reads Q (raise e)
  unfolding raise
  Reads-raise e = record { at = λ w. (refl, tt) }

  pub Reads-if : (b : Bool) (m n : Action A) → Reads Q m → Reads Q n → Reads Q (if b then m else n)
  Reads-if true m n km kn = km
  Reads-if false m n km kn = kn

-- What is said of the answer may be forgotten.
pub Reads-weaken : {A : Type 0} {Q : A → Type 0} {m : Action A} → Reads Q m → Reads Anything m
Reads-weaken {A} {Q} {m} km = record { at = λ w. ((km.at w).0, forget (m w).0) }
  where
    forget : (r : Result A) → Answers Anything r
    forget (ok a) = tt
    forget (raised e) = tt

pub Reads-lift : {A : Type 0} (r : Result A) → Reads Anything (lift r)
unfolding lift
Reads-lift (ok a) = record { at = λ w. (refl, tt) }
Reads-lift (raised e) = record { at = λ w. (refl, tt) }

module _ {A B : Type 0} {P : A → Type 0} {Q : B → Type 0} where
  Answers-bind :
      (r : Result A) (f : A → Action B) (w w' : World)
      → SameTables w w'
      → Answers P r
      → ((a : A) → P a → Reads Q (f a))
      → let (s, w'') = (lift r >>= f) w' in SameTables w w'' × Answers Q s
  unfolding ◌>>=◌
  Answers-bind (ok a) f w w' same p kf =
      let h = (kf a p).at w' in
      (h.0 ∙ ap (λ (x : World). record x { ticks = ((f a) w').1.ticks }) same, h.1)
  Answers-bind (raised e) f w w' same p kf = (same, tt)

  pub Reads-bind_answer :
      (m : Action A) (f : A → Action B)
      → Reads P m
      → ((a : A) → P a → Reads Q (f a))
      → Reads Q (m >>= f)
  unfolding ◌>>=◌
  Reads-bind_answer m f km kf = record {
    at = λ w. let h = km.at w in Answers-bind (m w).0 f w (m w).1 h.0 h.1 kf;
  }

module _ {A B : Type 0} {Q : B → Type 0} where
  pub Reads-bind :
      (m : Action A) (f : A → Action B)
      → Reads Anything m
      → ((a : A) → Reads Q (f a))
      → Reads Q (m >>= f)
  Reads-bind m f km kf = Reads-bind_answer m f km (λ a _. kf a)

pub ruleset reads_rules = (Reads-pure, Reads-raise, Reads-if, Reads-lift, Reads-bind)
