-- ===== src/Customers/Creation.antt =====
-- What the creation of a customer leaves behind when Nomba refuses the account.
use ldb_backend_hack.Base.{
  ◌≡◌, refl, ap, ◌∙◌, ◌==◌, nat_eq, ==_refl, ==_comm, string_eq, true, false, ◌&&◌, not, String,
  Option, none, some, List, [], ◌∷◌, ◌++◌, any, select, inl, inr, Bool-cases, arith, ℕ, ◌+◌, head?,
}
use ldb_backend_hack.Model.{World, Customer, DedicatedAccount, Uuid, customer_conflict}
use ldb_backend_hack.Action.{
  Action, Exception, ok, raised, pure, raise, ask, error_response, integrity_error, ◌>>=◌,
}
use ldb_backend_hack.Action.Steps.{bind_ok, Result-cases, bind_raised}
use ldb_backend_hack.Orm.{Orm, IsLawful, at_most_one}
use ldb_backend_hack.Orm.Memory.{memory, lawful-eq-memory}
use ldb_backend_hack.Runtime.{Runtime, uuid4, clock}
use ldb_backend_hack.Tables.{create_customer, delete_customer}
use ldb_backend_hack.Tables.Memory.{create_customer_new, create_customer_taken}
use ldb_backend_hack.Nomba.{
  Answer, responded, status_error, http_error, broken, failed_with, create_virtual_account,
}
use ldb_backend_hack.Responses.{CustomerResponse}
use ldb_backend_hack.Customers.{
  CreateCustomer, after_provisioning, create_new, unless_account, unless_customer,
  by_merchant_customer_id, customer_create,
}

-- Nomba's API answers with an HTTP error, or does not answer.
abbrev pub IsRefusal : Answer → Type 0
IsRefusal (responded code body) = ⊥
IsRefusal (status_error code message) = Unit
IsRefusal (http_error message) = Unit
IsRefusal (broken e) = ⊥

-- The answer that the service gives then.
abbrev pub refusal_message : Answer → String
refusal_message (status_error code message) = message
refusal_message (http_error message) = message
refusal_message _ = ""

refused_lem :
    (a : Answer) (w : World)
    → IsRefusal a
    → (code : ℕ) × (create_virtual_account a w ≡ (ok (failed_with code (refusal_message a)), w))
unfolding create_virtual_account pure
refused_lem (responded code body) w h = absurd h
refused_lem (status_error code message) w h = (code, refl)
refused_lem (http_error message) w h = (502, refl)
refused_lem (broken e) w h = absurd h

-- Deleting the row that was just added gives the table back.
select_of_new :
    (c : Customer) (rows : List Customer)
    → any (customer_conflict c) rows ≡ false
    → select (λ r. not (r.id == c.id)) (rows ++ c ∷ []) ≡ rows
select_of_new c [] h = rw (==_refl c.id) refl
select_of_new c (r ∷ rows) h = ground (arith, select_of_new c rows, ==_comm c.id r.id)

module _ (rt : Runtime) (nomba : String → String → Answer) (body : CreateCustomer) where
  -- The rest of `create_new` once the row has been built.
  abbrev store_new : Customer → Action CustomerResponse
  store_new c = create_customer memory c >>= λ customer.
      create_virtual_account (nomba body.merchant_customer_id body.name)
      >>= after_provisioning memory rt nomba body customer

  refused_end :
      (c : Customer) (code : ℕ) (message : String) (w : World)
      → after_provisioning memory rt nomba body c (failed_with code message) w ≡ (
        raised
            (error_response 502 "Failed to provision Nomba virtual account" (some (message ∷ []))),
        record w { customers = select (λ r. not (r.id == c.id)) w.customers },
      )
  unfolding after_provisioning delete_customer raise ◌>>=◌
  refused_end c code message w = refl

  store_new_refused :
      (c : Customer) (w : World)
      → IsRefusal (nomba body.merchant_customer_id body.name)
      → any (customer_conflict c) w.customers ≡ false
      → (e : Exception) × (store_new c w ≡ (raised e, w))
  store_new_refused c w refused new =
      let a = nomba body.merchant_customer_id body.name in
      let v = record w { customers = w.customers ++ c ∷ [] } in
      let (code, answered) = refused_lem a v refused in
      (
        error_response 502 "Failed to provision Nomba virtual account"
            (some (refusal_message a ∷ [])),
        bind_ok (create_customer memory c) _ (create_customer_new c w new)
            ∙ bind_ok (create_virtual_account a) (after_provisioning memory rt nomba body c)
                answered
            ∙ refused_end c code (refusal_message a) v
            ∙ ap
                (λ rows. (
                  raised (
                      error_response 502 "Failed to provision Nomba virtual account"
                        (some (refusal_message a ∷ []))),
                  record w { customers = rows },
                ))
                (select_of_new c w.customers new),
      )

  store_new_taken :
      (c : Customer) (w : World)
      → any (customer_conflict c) w.customers ≡ true
      → store_new c w ≡ (raised integrity_error, w)
  store_new_taken c w taken =
      bind_raised (create_customer memory c) _ (create_customer_taken c w taken)

-- The action raises an exception and leaves everything but the counter of draws as it was.
record Undoes {A : Type 0} (m : Action A) : Type 0 where
  undone : (w : World) → (e : Exception) × (n : ℕ) × (m w ≡ (raised e, record w { ticks = n }))

module _ (rt : Runtime) (nomba : String → String → Answer) (body : CreateCustomer)
    (refused : IsRefusal (nomba body.merchant_customer_id body.name)) where
  store_new-Undoes : (c : Customer) → Undoes (store_new rt nomba body c)
  store_new-Undoes c = record {
    undone = λ w. elim (Bool-cases (any (customer_conflict c) w.customers)) [
      | inl taken ↦ (integrity_error, w.ticks, store_new_taken rt nomba body c w taken)
      | inr new ↦ let (e, h) = store_new_refused rt nomba body c w refused new in (e, w.ticks, h)
    ];
  }

  create_new-Undoes : (m : Uuid) → Undoes (create_new memory rt nomba body m)
  unfolding create_new uuid4 clock
  create_new-Undoes m = record {
    undone = λ w.
        let (e, n, h) = (store_new-Undoes _).undone (record w { ticks = w.ticks + 1 }) in
        (e, n, bind_ok (uuid4 rt) _ refl ∙ bind_ok (clock rt) _ refl ∙ h);
  }

  unless_account-Undoes :
      (m : Uuid) (o : Option DedicatedAccount) → Undoes (unless_account memory rt nomba body m o)
  unfolding unless_account raise
  unless_account-Undoes m (some a) = record { undone = λ w. (_, w.ticks, refl) }
  unless_account-Undoes m none = create_new-Undoes m

  unless_customer-Undoes :
      (m : Uuid) (o : Option Customer) → Undoes (unless_customer memory rt nomba body m o)
  unfolding unless_customer raise ask
  unless_customer-Undoes m (some c) = record { undone = λ w. (_, w.ticks, refl) }
  unless_customer-Undoes m none = record {
    undone = λ w.
        let (e, n, h) =
          (unless_account-Undoes m (
              head? (
                select (λ (a : DedicatedAccount). a.account_ref == body.merchant_customer_id)
                  w.accounts))).undone
            w in
        (e, n, bind_ok _ (unless_account memory rt nomba body m) refl ∙ h);
  }

  customer_create-Undoes : (m : Uuid) → Undoes (customer_create memory rt nomba body m)
  unfolding customer_create by_merchant_customer_id ask
  customer_create-Undoes m = record {
    undone = λ w.
        elim (Result-cases (
          at_most_one (
            select
              (λ (c : Customer).
                c.merchant_id == m && c.merchant_customer_id == body.merchant_customer_id)
              w.customers))) [
                | inl (o, found) ↦
                    let (e, n, h) = (unless_customer-Undoes m o).undone w in
                    (
                      e,
                      n,
                      bind_ok _ (unless_customer memory rt nomba body m) (ap (λ r. (r, w)) found)
                          ∙ h,
                    )
                | inr (e, odd) ↦ (
                  e,
                  w.ticks,
                  bind_raised _ (unless_customer memory rt nomba body m) (ap (λ r. (r, w)) odd),
                )
              ];
  }

-- Over any lawful ORM, if Nomba answers the provisioning call with an HTTP error or not at all, the
-- creation of a customer ends in an exception, and every table is as it was before: the customer
-- that was written on the way is gone.
pub customer_create_undone :
    (orm : Orm) (laws : IsLawful orm) (rt : Runtime) (nomba : String → String → Answer)
    (body : CreateCustomer) (merchant_id : Uuid) (w : World)
    → IsRefusal (nomba body.merchant_customer_id body.name)
    → (e : Exception) × (n : ℕ) × (customer_create orm rt nomba body merchant_id w
        ≡ (raised e, record w { ticks = n }))
customer_create_undone orm laws rt nomba body merchant_id w refused =
    rw (lawful-eq-memory orm laws)
      ((customer_create-Undoes rt nomba body refused merchant_id).undone w)
