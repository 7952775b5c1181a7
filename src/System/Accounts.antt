-- ===== src/System/Accounts.antt =====
-- The account and statement services, and the registration of webhooks, against the invariant of
-- the ledger.
use ldb_backend_hack.Base.{
  ◌==◌, nat_eq, string_eq, not, Option, none, some, List, String, Elem, Elem-any, ==_refl, arith,
}
use ldb_backend_hack.Json.{Json, truthy}
use ldb_backend_hack.Model.{Customer, DedicatedAccount, Transaction, Uuid, WebhookRegistration}
use ldb_backend_hack.Action.{Action}
use ldb_backend_hack.Action.Safe.{Safe, Safe-bind, Safe-raise, Safe-if, Safe-weaken, Safe-from}
use ldb_backend_hack.Orm.Memory.{memory}
use ldb_backend_hack.Runtime.{Runtime}
use ldb_backend_hack.Tables.{create_registration}
use ldb_backend_hack.Nomba.{Answer, NombaResult}
use ldb_backend_hack.Responses.{build_account_response}
use ldb_backend_hack.Reconciliation.{fetch_customer}
use ldb_backend_hack.Reconciliation.Entries.{uuid4-KeepsLedger, clock-KeepsLedger}
use ldb_backend_hack.Customers.{by_merchant_customer_id}
use ldb_backend_hack.Accounts.{
  CreateDedicatedAccount, store_account, account_of_result, provision_account, account_for_customer,
  create_dedicated, account_get,
}
use ldb_backend_hack.Statements.{
  PaginateFilter, owned_by, owned_account, list_transactions, get_statement,
}
use ldb_backend_hack.Forwarder.{RegisterWebhook, register}
use ldb_backend_hack.Ledger.Keeps.{KeepsLedger, KeepsLedger-bind, keeps_rules}
use ldb_backend_hack.Ledger.Sound.{IsSound}
use ldb_backend_hack.Ledger.Sound.Payments.{Sound}
use ldb_backend_hack.System.Rules.{
  On, New, IsFound, IsFirst, Safe_of_keeps, create_account-Safe, first_account-Safe,
  find_customer-Safe,
}
use ldb_backend_hack.System.Customers.{create_virtual_account-KeepsLedger, either_field-KeepsLedger}

build_account_response-KeepsLedger :
    (a : DedicatedAccount) → KeepsLedger (build_account_response memory a)
unfolding build_account_response fetch_customer
build_account_response-KeepsLedger a = search keeps_rules depth 8

module _ (rt : Runtime) (nomba : String → String → Answer) where
  module _ (c : Customer) where
    still :
        {A : Type 0} {m : Action A} → KeepsLedger m → Safe (On (New c)) m (λ _. On (New c)) Sound
    still {m = m} k = Safe-weaken m (Safe_of_keeps (New c) k) (λ a w h. h) (λ w h. h.0)

    store_account-Safe :
        (name : String) (va_data account_number : Json)
        → Safe
            (On (New c))
            (store_account memory rt nomba c name va_data account_number)
            (λ _. Sound)
            Sound
    unfolding store_account
    store_account-Safe name va_data account_number =
        Safe-if (not (truthy account_number)) _ _ (λ _. Safe-raise _ (λ w h. h.0))
          (λ _. Safe-bind _ _ (still (uuid4-KeepsLedger rt)) (λ id.
            Safe-bind _ _ (still (either_field-KeepsLedger _ _ va_data)) (λ va_id.
              Safe-bind _ _ (still (clock-KeepsLedger rt)) (λ t.
                Safe-bind _ _ (create_account-Safe _)
                  (λ a. Safe_of_keeps IsSound (build_account_response-KeepsLedger a))))))

    account_of_result-Safe :
        (name : String) (r : NombaResult)
        → Safe (On (New c)) (account_of_result memory rt nomba c name r) (λ _. Sound) Sound
    unfolding account_of_result
    account_of_result-Safe name r =
        Safe-if (not r.success) _ _ (λ _. Safe-raise _ (λ w h. h.0))
          (λ _.
            Safe-bind _ _ (still (either_field-KeepsLedger _ _ _))
              (λ account_number. store_account-Safe name _ account_number))

    provision_account-Safe :
        (body : CreateDedicatedAccount) (o : Option DedicatedAccount)
        → Safe
            (On (λ cs rows ts. (IsSound cs rows ts × Elem c cs) × IsFirst c o rows))
            (provision_account memory rt nomba body c o)
            (λ _. Sound)
            Sound
    unfolding provision_account
    provision_account-Safe body (some a) = Safe-raise _ (λ w h. h.0.0)
    provision_account-Safe body none =
        Safe-from _
          (Safe-bind _ _ (still (create_virtual_account-KeepsLedger _)) (account_of_result-Safe _))
          (λ w h. (h.0.0, Elem-any (λ d. d.id == c.id) w.customers h.0.1 (==_refl c.id), h.1))

  account_for_customer-Safe :
      (body : CreateDedicatedAccount) (o : Option Customer)
      → Safe
          (On (λ cs rows ts. IsSound cs rows ts × IsFound o cs))
          (account_for_customer memory rt nomba body o)
          (λ _. Sound)
          Sound
  unfolding account_for_customer
  account_for_customer-Safe body none = Safe-raise _ (λ w h. h.0)
  account_for_customer-Safe body (some c) =
      Safe-bind _ _
        (Safe-weaken _ (first_account-Safe (λ cs rows ts. IsSound cs rows ts × Elem c cs) c)
          (λ o w h. h) (λ w h. h.0))
        (provision_account-Safe c body)

  pub create_dedicated-Safe :
      (body : CreateDedicatedAccount) (merchant_id : Uuid)
      → Safe Sound (create_dedicated memory rt nomba body merchant_id) (λ _. Sound) Sound
  unfolding create_dedicated by_merchant_customer_id
  create_dedicated-Safe body merchant_id =
      Safe-bind _ _ (find_customer-Safe IsSound _) (account_for_customer-Safe body)

module _ (account_id merchant_id : Uuid) where
  owned_account-KeepsLedger : KeepsLedger (owned_account memory account_id merchant_id)
  unfolding owned_account owned_by fetch_customer
  owned_account-KeepsLedger = KeepsLedger-bind _ _ (search keeps_rules) owner
    where
      owner : (o : Option DedicatedAccount) → KeepsLedger (owned_by memory merchant_id o)
      owner none = search keeps_rules
      owner (some a) = search keeps_rules depth 8

  pub account_get-KeepsLedger : KeepsLedger (account_get memory account_id merchant_id)
  unfolding account_get
  account_get-KeepsLedger =
      KeepsLedger-bind _ _ owned_account-KeepsLedger
        (λ pair. build_account_response-KeepsLedger pair.0)

  module _ (newest_first : List Transaction → List Transaction) where
    pub list_transactions-KeepsLedger :
        (filters : PaginateFilter)
        → KeepsLedger (list_transactions memory newest_first account_id merchant_id filters)
    unfolding list_transactions
    list_transactions-KeepsLedger filters =
        KeepsLedger-bind _ _ owned_account-KeepsLedger (λ pair. search keeps_rules)

    pub get_statement-KeepsLedger :
        KeepsLedger (get_statement memory newest_first account_id merchant_id)
    unfolding get_statement
    get_statement-KeepsLedger =
        KeepsLedger-bind _ _ owned_account-KeepsLedger (λ pair. search keeps_rules)

create_registration-KeepsLedger :
    (r : WebhookRegistration) → KeepsLedger (create_registration memory r)
unfolding create_registration
create_registration-KeepsLedger r = record { at = λ w. ground arith }

pub register-KeepsLedger :
    (rt : Runtime) (body : RegisterWebhook) (merchant_id : Uuid)
    → KeepsLedger (register memory rt body merchant_id)
unfolding register
register-KeepsLedger rt body merchant_id =
    search
      (keeps_rules, uuid4-KeepsLedger rt, clock-KeepsLedger rt, create_registration-KeepsLedger)
      depth 8
