-- ===== src/Accounts/Opened.antt =====
-- What a request for a dedicated account leaves in the tables, however it ends.
use ldb_backend_hack.Base.{
  ◌≡◌, refl, sym, subst, ◌∙◌, ◌==◌, nat_eq, string_eq, ==→eq, ◌&&◌, not, String, Option, none, some,
  [], ◌∷◌, ◌++◌, Elem, select, arith,
}
use ldb_backend_hack.Json.{Json, truthy}
use ldb_backend_hack.Model.{World, Customer, DedicatedAccount, Uuid, active}
use ldb_backend_hack.Action.{ok}
use ldb_backend_hack.Action.Safe.{Safe, Ends, Safe-bind, Safe-raise, Safe-ask, Safe-if, Safe-weaken}
use ldb_backend_hack.Orm.{Orm, IsLawful, at_most_one}
use ldb_backend_hack.Orm.Memory.{memory, lawful-eq-memory, at_most_one-select}
use ldb_backend_hack.Runtime.{Runtime}
use ldb_backend_hack.Nomba.{Answer, NombaResult}
use ldb_backend_hack.Responses.{AccountResponse, build_account_response}
use ldb_backend_hack.Reconciliation.Entries.{uuid4-KeepsLedger, clock-KeepsLedger}
use ldb_backend_hack.Customers.{by_merchant_customer_id}
use ldb_backend_hack.Accounts.{
  CreateDedicatedAccount, store_account, account_of_result, provision_account, account_for_customer,
  create_dedicated,
}
use ldb_backend_hack.Ledger.{Unchanged}
use ldb_backend_hack.Ledger.Sound.Customers.{HasNone}
use ldb_backend_hack.System.Rules.{On, IsFirst, Safe_of_keeps, first_account-Safe}
use ldb_backend_hack.System.Customers.{create_virtual_account-KeepsLedger, either_field-KeepsLedger}
use ldb_backend_hack.Accounts.Added.{Before, With, create_account-With, build_account_response-With}

-- The customer of the merchant under that id, which had no account, has one new active account
-- under the merchant's id for it; the response shows it, and nothing else in the ledger has
-- changed.
pub record IsOpened (body : CreateDedicatedAccount) (merchant_id : Uuid) (w : World)
    (r : AccountResponse) (w' : World) : Type 0 where
  pub customer : Customer
  pub account : DedicatedAccount
  pub known : Elem customer w.customers
  pub merchant : customer.merchant_id ≡ merchant_id
  pub named : customer.merchant_customer_id ≡ body.merchant_customer_id
  pub none_before : HasNone w.accounts customer.id
  pub owner : account.customer_id ≡ customer.id
  pub ref : account.account_ref ≡ body.merchant_customer_id
  pub is_active : account.status ≡ active
  pub shown : r.id ≡ account.id
  pub number : r.account_number ≡ account.account_number
  pub accounts : w'.accounts ≡ w.accounts ++ account ∷ []
  pub customers : w'.customers ≡ w.customers
  pub transactions : w'.transactions ≡ w.transactions

module _ (rt : Runtime) (nomba : String → String → Answer) (body : CreateDedicatedAccount)
    (m : Uuid) (w₀ : World) where
  -- What the searches have found.
  record IsReady (c : Customer) : Type 0 where
    known : Elem c w₀.customers
    merchant : c.merchant_id ≡ m
    named : c.merchant_customer_id ≡ body.merchant_customer_id
    none_before : HasNone w₀.accounts c.id

  response-Opens :
      (c : Customer) (a : DedicatedAccount)
      → IsReady c
      → a.customer_id ≡ c.id
      → a.account_ref ≡ c.merchant_customer_id
      → a.status ≡ active
      → Safe
          (On (With w₀ a))
          (build_account_response memory a)
          (IsOpened body m w₀)
          (On (Before w₀))
  response-Opens c a ready owner ref is_active =
      Safe-weaken _ (build_account_response-With w₀ c a ready.known owner)
        (λ r w h. record {
          customer = c;
          account = a;
          known = ready.known;
          merchant = ready.merchant;
          named = ready.named;
          none_before = ready.none_before;
          owner = owner;
          ref = ref ∙ ready.named;
          is_active = is_active;
          shown = h.0;
          number = h.1;
          accounts = h.2.1;
          customers = h.2.0;
          transactions = h.2.2;
        })
        (λ w h. h)

  store_account-Opens :
      (c : Customer) (name : String) (va_data account_number : Json)
      → IsReady c
      → Safe
          (On (Before w₀))
          (store_account memory rt nomba c name va_data account_number)
          (IsOpened body m w₀)
          (On (Before w₀))
  unfolding store_account
  store_account-Opens c name va_data account_number ready =
      Safe-if (not (truthy account_number)) _ _ (λ _. Safe-raise _ (λ w h. h))
        (λ _. Safe-bind _ _ (Safe_of_keeps (Before w₀) (uuid4-KeepsLedger rt)) (λ id.
          Safe-bind _ _ (Safe_of_keeps (Before w₀) (either_field-KeepsLedger _ _ va_data)) (λ va_id.
            Safe-bind _ _ (Safe_of_keeps (Before w₀) (clock-KeepsLedger rt)) (λ t.
              Safe-bind _ _ (create_account-With w₀ _) (λ b. record {
                at = λ w h.
                    subst
                      (λ x.
                        Ends (IsOpened body m w₀) (On (Before w₀))
                          (build_account_response memory x w))
                      (sym h.0) ((response-Opens c _ ready refl refl refl).at w h.1);
              })))))

  account_of_result-Opens :
      (c : Customer) (name : String) (r : NombaResult)
      → IsReady c
      → Safe
          (On (Before w₀))
          (account_of_result memory rt nomba c name r)
          (IsOpened body m w₀)
          (On (Before w₀))
  unfolding account_of_result
  account_of_result-Opens c name r ready =
      Safe-if (not r.success) _ _ (λ _. Safe-raise _ (λ w h. h))
        (λ _.
          Safe-bind _ _ (Safe_of_keeps (Before w₀) (either_field-KeepsLedger _ _ _))
            (λ account_number. store_account-Opens c name _ account_number ready))

  provision_account-Opens :
      (c : Customer) (o : Option DedicatedAccount)
      → Elem c w₀.customers
      → (c.merchant_id ≡ m) × (c.merchant_customer_id ≡ body.merchant_customer_id)
      → IsFirst c o w₀.accounts
      → Safe
          (On (Before w₀))
          (provision_account memory rt nomba body c o)
          (IsOpened body m w₀)
          (On (Before w₀))
  unfolding provision_account
  provision_account-Opens c (some a) known mine first = Safe-raise _ (λ w h. h)
  provision_account-Opens c none known mine first =
      Safe-bind _ _ (Safe_of_keeps (Before w₀) (create_virtual_account-KeepsLedger _)) (λ r.
        account_of_result-Opens c _ r
          (record { known = known; merchant = mine.0; named = mine.1; none_before = first }))

  -- The customer that was found is one of the merchant, under that id.
  IsMine : Option Customer → Type 0
  IsMine none = Unit
  IsMine (some c) =
      Elem c w₀.customers
      × (c.merchant_id ≡ m)
      × (c.merchant_customer_id ≡ body.merchant_customer_id)

  account_for_customer-Opens :
      (o : Option Customer)
      → IsMine o
      → Safe
          (On (Before w₀))
          (account_for_customer memory rt nomba body o)
          (IsOpened body m w₀)
          (On (Before w₀))
  unfolding account_for_customer IsMine
  account_for_customer-Opens none mine = Safe-raise _ (λ w h. h)
  account_for_customer-Opens (some c) (known, merchant, named) =
      Safe-bind _ _ (first_account-Safe (Before w₀) c) (λ o. record {
        at = λ w h.
            (provision_account-Opens c o known (merchant, named) (subst (IsFirst c o) h.0.1 h.1)).at
              w h.0;
      })

  create_dedicated-Opens :
      Safe
        (On (Before w₀))
        (create_dedicated memory rt nomba body m)
        (IsOpened body m w₀)
        (On (Before w₀))
  unfolding create_dedicated by_merchant_customer_id IsMine
  create_dedicated-Opens =
      Safe-bind {R = λ o w. IsMine o × On (Before w₀) w} _ _
        (Safe-ask _ (λ w o e h. (go w o e h.0, h)) (λ w h. h))
        (λ o. record { at = λ w h. (account_for_customer-Opens o h.0).at w h.1 })
    where
      go :
          (w : World) (o : Option Customer)
          → at_most_one (
              select
                (λ c. c.merchant_id == m && c.merchant_customer_id == body.merchant_customer_id)
                w.customers)
            ≡ ok o
          → w.customers ≡ w₀.customers
          → IsMine o
      go w none e same = tt
      go w (some c) e same =
          let (known, pass) = at_most_one-select _ w.customers e in
          (
            subst (Elem c) same known,
            ==→eq c.merchant_id m (ground arith),
            ==→eq c.merchant_customer_id body.merchant_customer_id (ground arith),
          )

-- Over any lawful ORM, a request for a dedicated account that returns has added one new active
-- account, for the customer of the merchant that was named and that had none, and the response
-- shows that account; a request that raises, whatever Nomba answers, has changed no customer,
-- account or transaction.
pub create_dedicated-IsOpened :
    (orm : Orm) (laws : IsLawful orm) (rt : Runtime) (nomba : String → String → Answer)
    (body : CreateDedicatedAccount) (merchant_id : Uuid) (w : World)
    → Ends
        (IsOpened body merchant_id w)
        (Unchanged w)
        (create_dedicated orm rt nomba body merchant_id w)
create_dedicated-IsOpened orm laws rt nomba body merchant_id w = rw (lawful-eq-memory orm laws) (
    (Safe-weaken _ (create_dedicated-Opens rt nomba body merchant_id w) (λ r v h. h)
        (λ v h. record { customers = h.0; accounts = h.1; transactions = h.2 })).at
      w (refl, refl, refl))
