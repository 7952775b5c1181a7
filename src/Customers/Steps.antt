-- ===== src/Customers/Steps.antt =====
-- What the steps of a creation read and write.
use mathlib.Core.Bool.{true≢false}
use ldb_backend_hack.Base.{
  ℕ, true, ◌≡◌, refl, sym, ◌∙◌, string_eq, nat_eq, String, List, any, Elem, inl, inr, Bool-cases,
}
use ldb_backend_hack.Json.{Json, null, bool, text, array, object, Fields, or_json}
use ldb_backend_hack.Runtime.Dicts.{got, data_in, get_default_lem, get_data}
use ldb_backend_hack.Model.{World, Customer, DedicatedAccount, customer_conflict, account_conflict}
use ldb_backend_hack.Action.{Result, ok, raised, pure, raise, lift, ask, attribute_error, ◌>>=◌}
use ldb_backend_hack.Action.Hoare.{Hoare, Hoare-bind, Hoare-pure, Hoare-always, Hoare-raise}
use ldb_backend_hack.Orm.Memory.{memory}
use ldb_backend_hack.Runtime.{Runtime, get_default, uuid4, clock}
use ldb_backend_hack.Tables.{create_customer, create_account}
use ldb_backend_hack.Tables.Memory.{
  create_customer_new, create_customer_taken, create_account_new, create_account_taken,
}
use ldb_backend_hack.Nomba.{
  Answer, responded, status_error, http_error, broken, NombaResult, create_virtual_account,
}
use ldb_backend_hack.Responses.{first_account, build_customer_response}
use ldb_backend_hack.Reconciliation.Answers.{last_Elem, stored_ok, refused_ne_ok}
use ldb_backend_hack.Customers.{either_field}

-- A result that says success has the data of Nomba's answer.
abbrev pub IsResult : Answer → NombaResult → Type 0
IsResult answer r =
    r.success ≡ true
    → (code : ℕ) × (fields : Fields) × (answer ≡ responded code (object fields))
      × (r.body ≡ data_in fields)

-- What `either_field` reads from a dict.
abbrev pub IsField : String → String → Json → Json → Type 0
IsField key other j k =
    (fields : Fields) × (j ≡ object fields) × (k ≡ or_json (got key fields) (got other fields))

-- A predicate on the tables of customers and accounts.
abbrev pub On : (List Customer → List DedicatedAccount → Type 0) → World → Type 0
On P w = P w.customers w.accounts

module _ (P : List Customer → List DedicatedAccount → Type 0) where
  lift-On : {A : Type 0} (r : Result A) → Hoare (On P) (lift r) (λ a. On P)
  unfolding lift
  lift-On r = Hoare-always _ (λ w h. h)

  pub uuid4-On : (rt : Runtime) → Hoare (On P) (uuid4 rt) (λ id. On P)
  unfolding uuid4
  uuid4-On rt = Hoare-always _ (λ w h. h)

  pub clock-On : (rt : Runtime) → Hoare (On P) (clock rt) (λ t. On P)
  unfolding clock
  clock-On rt = Hoare-always _ (λ w h. h)

  pub either_field-On :
      (key other : String) (j : Json) → Hoare (On P) (either_field key other j) (λ k. On P)
  unfolding either_field
  either_field-On key other j =
      Hoare-bind _ _ (lift-On _)
        (λ a. Hoare-bind _ _ (lift-On _) (λ b. Hoare-pure _ (λ k. On P) (λ w h. h)))

  either_field_object :
      (key other : String) (fields : Fields)
      → either_field key other (object fields) ≡ pure (or_json (got key fields) (got other fields))
  unfolding either_field ◌>>=◌
  either_field_object key other fields =
      rw (get_default_lem key fields, get_default_lem other fields) refl

  lift_with-On :
      {A : Type 0} (F : Type 0) (r : Result A)
      → Hoare (λ w. F × On P w) (lift r) (λ a w. F × On P w)
  unfolding lift
  lift_with-On F r = Hoare-always _ (λ w h. h)

  lift_ok-On : {A : Type 0} (a : A) → Hoare (On P) (lift (ok a)) (λ b w. (b ≡ a) × On P w)
  unfolding lift pure
  lift_ok-On a = Hoare-pure a (λ b w. (b ≡ a) × On P w) (λ w h. (refl, h))

  pub either_field-IsField :
      (key other : String) (j : Json)
      → Hoare (On P) (either_field key other j) (λ k w. IsField key other j k × On P w)
  unfolding either_field get_default lift raise ◌>>=◌
  either_field-IsField key other (object fields) = rw (either_field_object key other fields) (
      Hoare-pure _ (λ k w. IsField key other (object fields) k × On P w)
        (λ w h. ((fields, refl, refl), h)))
  either_field-IsField key other null = Hoare-raise attribute_error
  either_field-IsField key other (bool b) = Hoare-raise attribute_error
  either_field-IsField key other (Json.number n) = Hoare-raise attribute_error
  either_field-IsField key other (text s) = Hoare-raise attribute_error
  either_field-IsField key other (array items) = Hoare-raise attribute_error

  -- An answer that is no dict.
  odd :
      (code : ℕ) (j : Json)
      → ((d : Json) → get_default j "data" d ≡ raised attribute_error)
      → Hoare
          (On P)
          (create_virtual_account (responded code j))
          (λ r w. IsResult (responded code j) r × On P w)
  unfolding create_virtual_account lift raise ◌>>=◌
  odd code j h = rw (h j) (Hoare-raise attribute_error)

  pub create_virtual_account-On :
      (a : Answer) → Hoare (On P) (create_virtual_account a) (λ r w. IsResult a r × On P w)
  unfolding create_virtual_account get_default
  create_virtual_account-On (responded code (object fields)) =
      Hoare-bind {R = λ d w. (d ≡ data_in fields) × On P w} _ _
        (rw (get_data fields) (lift_ok-On (data_in fields)))
        (λ d.
          Hoare-bind {R = λ k w. (d ≡ data_in fields) × On P w} _ _
            (lift_with-On (d ≡ data_in fields) _)
            (λ k.
              Hoare-pure _ (λ r w. IsResult (responded code (object fields)) r × On P w)
                (λ w h. ((λ success. (code, fields, refl, h.0)), h.1))))
  create_virtual_account-On (responded code null) = odd code null (λ d. refl)
  create_virtual_account-On (responded code (bool b)) = odd code (bool b) (λ d. refl)
  create_virtual_account-On (responded code (Json.number n)) = odd code (Json.number n) (λ d. refl)
  create_virtual_account-On (responded code (text s)) = odd code (text s) (λ d. refl)
  create_virtual_account-On (responded code (array items)) = odd code (array items) (λ d. refl)
  create_virtual_account-On (status_error code m) =
      Hoare-pure _ (λ r w. IsResult _ r × On P w)
        (λ w h. ((λ success. absurd (true≢false (sym success))), h))
  create_virtual_account-On (http_error m) =
      Hoare-pure _ (λ r w. IsResult _ r × On P w)
        (λ w h. ((λ success. absurd (true≢false (sym success))), h))
  create_virtual_account-On (broken e) = Hoare-raise e

  pub build_customer_response-On :
      (rt : Runtime) (c : Customer) → Hoare (On P) (build_customer_response memory rt c) (λ r. On P)
  unfolding build_customer_response first_account ask
  build_customer_response-On rt c =
      Hoare-bind _ _ (Hoare-always _ (λ w h. h)) (λ a. Hoare-pure _ (λ r. On P) (λ w h. h))

pub create_customer-On :
    (c : Customer)
    → Hoare (λ w. Unit {0}) (create_customer memory c) (λ a w. (a ≡ c) × Elem c w.customers)
create_customer-On c = record {
  gives = λ w w' a h e. elim (Bool-cases (any (customer_conflict c) w.customers)) [
    | inl taken ↦ refused_ne_ok (sym (create_customer_taken c w taken) ∙ e)
    | inr free ↦
        stored_ok (λ v. Elem c v.customers) (sym (create_customer_new c w free) ∙ e)
          (last_Elem w.customers c)
  ];
}

pub create_account-On :
    (P : List Customer → Type 0) (b : DedicatedAccount)
    → Hoare
        (λ w. P w.customers)
        (create_account memory b)
        (λ a w. P w.customers × Elem b w.accounts)
create_account-On P b = record {
  gives = λ w w' a h e. elim (Bool-cases (any (account_conflict b) w.accounts)) [
    | inl taken ↦ refused_ne_ok (sym (create_account_taken b w taken) ∙ e)
    | inr free ↦
        (stored_ok (λ v. P v.customers × Elem b v.accounts) (sym (create_account_new b w free) ∙ e)
          (h, last_Elem w.accounts b)).1
  ];
}
