-- ===== src/Base/Lists.antt =====
-- Lists measured by native numbers, and the list functions that Python's comprehensions become.
use Prim.Native.Nat.{ℕ, zero, suc, ◌+◌, ◌-◌, min}
use mathlib.Core.Path.{◌≡◌, refl, sym, ap, subst, ◌∙◌}
use mathlib.Core.Logic.{◌⊎◌, inl, inr}
use mathlib.Core.Bool.{Bool, true, false, ◌||◌, true≢false}
use mathlib.Core.List.{List, [], ◌∷◌, ◌++◌, map}
use mathlib.Core.Option.{Option, none, some, some-injective}
use native.Mathlib.Omega.{arith}
use ldb_backend_hack.Base.Equality.{if◌then◌else◌, Bool-cases}

module _ {ℓ} {A : Type ℓ} where
  abbrev pub length : List A → ℕ
  length [] = 0
  length (x ∷ xs) = suc (length xs)

  abbrev pub take : ℕ → List A → List A
  take zero xs = []
  take (suc n) [] = []
  take (suc n) (x ∷ xs) = x ∷ take n xs

  abbrev pub drop : ℕ → List A → List A
  drop zero xs = xs
  drop (suc n) [] = []
  drop (suc n) (x ∷ xs) = drop n xs

  -- The elements that pass the test, in order.
  abbrev pub select : (A → Bool) → List A → List A
  select p [] = []
  select p (x ∷ xs) = if p x then x ∷ select p xs else select p xs

  abbrev pub any : (A → Bool) → List A → Bool
  any p [] = false
  any p (x ∷ xs) = p x || any p xs

  abbrev pub head? : List A → Option A
  head? [] = none
  head? (x ∷ xs) = some x

  -- Every element for which `p` holds is replaced by `v`.
  abbrev pub replace : (A → Bool) → A → List A → List A
  replace p v [] = []
  replace p v (x ∷ xs) = (if p x then v else x) ∷ replace p v xs

  abbrev pub All {κ} : (A → Type κ) → List A → Type κ
  All P [] = Unit
  All P (x ∷ xs) = P x × All P xs

-- Membership by recursion, which keeps the place.
abbrev pub Elem : {A : Type 0} → A → List A → Type 0
Elem x [] = ⊥
Elem x (y ∷ ys) = (x ≡ y) ⊎ Elem x ys

module _ {ℓ} {A : Type ℓ} where
  pub length-append : (xs ys : List A) → length (xs ++ ys) ≡ length xs + length ys
  length-append [] ys = omega arith
  length-append (x ∷ xs) ys = omega (arith, length-append xs ys)

  pub length-map {κ} : {B : Type κ} (f : A → B) (xs : List A) → length (map f xs) ≡ length xs
  length-map f [] = refl
  length-map f (x ∷ xs) = ap suc (length-map f xs)

  pub length-take : (n : ℕ) (xs : List A) → length (take n xs) ≡ min n (length xs)
  length-take zero xs = omega arith
  length-take (suc n) [] = omega arith
  length-take (suc n) (x ∷ xs) = omega (arith, length-take n xs)

  pub length-drop : (n : ℕ) (xs : List A) → length (drop n xs) ≡ length xs - n
  length-drop zero xs = omega arith
  length-drop (suc n) [] = omega arith
  length-drop (suc n) (x ∷ xs) = omega (arith, length-drop n xs)

  pub length-replace : (p : A → Bool) (v : A) (xs : List A) → length (replace p v xs) ≡ length xs
  length-replace p v [] = refl
  length-replace p v (x ∷ xs) = ap suc (length-replace p v xs)

  pub any-append : (p : A → Bool) (xs ys : List A) → any p (xs ++ ys) ≡ (any p xs || any p ys)
  any-append p [] ys = refl
  any-append p (x ∷ xs) ys = ground (arith, any-append p xs ys)

  pub select-append :
      (p : A → Bool) (xs ys : List A) → select p (xs ++ ys) ≡ select p xs ++ select p ys
  select-append p [] ys = refl
  select-append p (x ∷ xs) ys = ground (arith, select-append p xs ys)

  -- A table in which nothing passes yields nothing.
  pub select-eq-nil : (p : A → Bool) (xs : List A) → any p xs ≡ false → select p xs ≡ []
  select-eq-nil p [] h = refl
  select-eq-nil p (x ∷ xs) h = ground (arith, select-eq-nil p xs)

  pub All-append {κ} : (P : A → Type κ) (xs ys : List A) → All P xs → All P ys → All P (xs ++ ys)
  All-append P [] ys h k = k
  All-append P (x ∷ xs) ys h k = (h.0, All-append P xs ys h.1 k)

some_ne_none : {A : Type 0} (x : A) → some x ≡ none → ⊥
some_ne_none x e = cc

module _ {A : Type 0} where
  pub All-Elem : (P : A → Type 0) (xs : List A) {x : A} → All P xs → Elem x xs → P x
  All-Elem P [] h e = elim e [ ]
  All-Elem P (y ∷ ys) h (inl same) = subst P (sym same) h.0
  All-Elem P (y ∷ ys) h (inr later) = All-Elem P ys h.1 later

  -- The first element that passes a test is in the list and passes it.
  pub head?-select :
      (p : A → Bool) (xs : List A) {x : A} → head? (select p xs) ≡ some x → Elem x xs × (p x ≡ true)
  head?-select p [] e = cc
  head?-select p (y ∷ xs) {x} e = elim (Bool-cases (p y)) [
    | inl pass ↦
        let same : y ≡ x = some-injective y x (rw pass at e) in
        (inl (sym same), subst (λ z. p z ≡ true) same pass)
    | inr fail ↦ let later = head?-select p xs (rw fail at e) in (inr later.0, later.1)
  ]

  pub Elem-any : (p : A → Bool) (xs : List A) {x : A} → Elem x xs → p x ≡ true → any p xs ≡ true
  Elem-any p [] m e = elim m [ ]
  Elem-any p (y ∷ ys) (inl same) e = rw (← same) (rw e)
  Elem-any p (y ∷ ys) (inr later) e = rw (Elem-any p ys later e) (ground arith)

  -- Where a test holds of the replacement if of the row, a replaced table passes as the old one
  -- did.
  pub any-replace :
      (p same : A → Bool) (v : A) (rows : List A)
      → ((r : A) → Elem r rows → same r ≡ true → p v ≡ p r)
      → any p (replace same v rows) ≡ any p rows
  any-replace p same v [] h = refl
  any-replace p same v (r ∷ rows) h = elim (Bool-cases (same r)) [
    | inl hit ↦ rw (hit, h r (inl refl) hit, any-replace p same v rows (λ s m. h s (inr m))) refl
    | inr miss ↦ rw (miss, any-replace p same v rows (λ s m. h s (inr m))) refl
  ]

  pub All-replace :
      (P : A → Type 0) (same : A → Bool) (v : A) (rows : List A)
      → ((r : A) → Elem r rows → same r ≡ true → P r → P v)
      → All P rows
      → All P (replace same v rows)
  All-replace P same v [] h k = tt
  All-replace P same v (r ∷ rows) h k = (
    elim (Bool-cases (same r)) [
      | inl hit ↦ rw hit (h r (inl refl) hit k.0)
      | inr miss ↦ rw miss k.0
    ],
    All-replace P same v rows (λ s m. h s (inr m)) k.1,
  )

  pub All-select :
      (P : A → Type 0) (p : A → Bool) (rows : List A) → All P rows → All P (select p rows)
  All-select P p [] k = tt
  All-select P p (r ∷ rows) k = elim (Bool-cases (p r)) [
    | inl hit ↦ rw hit (k.0, All-select P p rows k.1)
    | inr miss ↦ rw miss (All-select P p rows k.1)
  ]

  -- What holds of the rows under one view holds under another that gives what is asked for.
  pub All-mono :
      (P Q : A → Type 0) (rows : List A)
      → ((r : A) → Elem r rows → P r → Q r)
      → All P rows
      → All Q rows
  All-mono P Q [] h k = tt
  All-mono P Q (r ∷ rows) h k = (h r (inl refl) k.0, All-mono P Q rows (λ s m. h s (inr m)) k.1)

  pub any-true_append : (p : A → Bool) (xs ys : List A) → any p xs ≡ true → any p (xs ++ ys) ≡ true
  any-true_append p xs ys h = any-append p xs ys ∙ rw h refl

  -- Where a test holds, it holds of what is selected, if all that passes it is.
  pub any-select :
      (p q : A → Bool) (xs : List A)
      → ((x : A) → p x ≡ true → q x ≡ true)
      → any p (select q xs) ≡ any p xs
  any-select p q [] h = refl
  any-select p q (x ∷ xs) h = elim (Bool-cases (q x)) [
    | inl kept ↦ rw (kept, any-select p q xs h) refl
    | inr dropped ↦ elim (Bool-cases (p x)) [
      | inl pass ↦ absurd (true≢false (sym (h x pass) ∙ dropped))
      | inr fail ↦ rw (dropped, fail, any-select p q xs h) refl
    ]
  ]

  -- A test that no element passes.
  pub any_none :
      (p : A → Bool) (xs : List A) → ((x : A) → Elem x xs → p x ≡ false) → any p xs ≡ false
  any_none p [] h = refl
  any_none p (x ∷ xs) h = rw (h x (inl refl), any_none p xs (λ y m. h y (inr m))) refl

  pub any_none-Elem :
      (p : A → Bool) (xs : List A) {x : A} → any p xs ≡ false → Elem x xs → p x ≡ false
  any_none-Elem p xs {x} h m = elim (Bool-cases (p x)) [
    | inl pass ↦ absurd (true≢false (sym (Elem-any p xs m pass) ∙ h))
    | inr fail ↦ fail
  ]

  -- Where nothing is selected, nothing passes.
  pub head?-none : (p : A → Bool) (xs : List A) → head? (select p xs) ≡ none → any p xs ≡ false
  head?-none p [] e = refl
  head?-none p (x ∷ xs) e = elim (Bool-cases (p x)) [
    | inl pass ↦ absurd (some_ne_none x (rw pass at e))
    | inr fail ↦ rw fail (head?-none p xs (rw fail at e))
  ]
