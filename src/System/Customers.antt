-- ===== src/System/Customers.antt =====
-- The customer service against the invariant of the ledger.
use ldb_backend_hack.Base.{
  ◌≡◌, refl, subst, nat_eq, string_eq, not, Option, none, some, List, String, Elem,
}
use mathlib.Core.Option.{some-injective}
use ldb_backend_hack.Json.{Json, truthy}
use ldb_backend_hack.Model.{World, Customer, DedicatedAccount, Transaction, Uuid}
use ldb_backend_hack.Action.{Action, Exception, raise, ◌>>◌}
use ldb_backend_hack.Action.Safe.{
  Safe, Safe-bind, Safe-pure, Safe-raise, Safe-if, Safe-weaken, Safe-from,
}
use ldb_backend_hack.Orm.Memory.{memory}
use ldb_backend_hack.Runtime.{Runtime}
use ldb_backend_hack.Tables.{delete_customer}
use ldb_backend_hack.Nomba.{
  Answer, NombaResult, responded, status_error, http_error, broken, create_virtual_account,
  update_account_name,
}
use ldb_backend_hack.Responses.{CustomerResponse, first_account, build_customer_response}
use ldb_backend_hack.Customers.{
  CreateCustomer, UpdateCustomer, either_field, create_dedicated_account, after_provisioning,
  create_new, unless_account, unless_customer, customer_create, by_merchant_customer_id,
}
use ldb_backend_hack.Customers.Profile.{
  updated, by_id, or_by_merchant_id, resolve_customer, show_customer, customer_get, rename_account,
  rename, update_found, customer_update,
}
use ldb_backend_hack.Reconciliation.Entries.{uuid4-KeepsLedger, clock-KeepsLedger}
use ldb_backend_hack.Ledger.Keeps.{KeepsLedger, KeepsLedger-bind, keeps_rules}
use ldb_backend_hack.Ledger.Sound.{IsSound}
use ldb_backend_hack.Ledger.Sound.Payments.{Sound}
use ldb_backend_hack.System.Rules.{
  On, New, IsFound, IsFirst, Safe_of_keeps, create_customer-Safe, delete_customer-Safe,
  create_account-Safe, save_customer-Safe, save_account-Safe, first_account-Safe,
  find_customer-Safe,
}

-- What makes an answer of Nomba's client leaves the tables alone.
pub create_virtual_account-KeepsLedger : (a : Answer) → KeepsLedger (create_virtual_account a)
unfolding create_virtual_account
create_virtual_account-KeepsLedger (responded code body) = search keeps_rules depth 8
create_virtual_account-KeepsLedger (status_error code message) = search keeps_rules
create_virtual_account-KeepsLedger (http_error message) = search keeps_rules
create_virtual_account-KeepsLedger (broken e) = search keeps_rules

pub update_account_name-KeepsLedger : (a : Answer) → KeepsLedger (update_account_name a)
unfolding update_account_name
update_account_name-KeepsLedger (responded code body) = search keeps_rules depth 8
update_account_name-KeepsLedger (status_error code message) = search keeps_rules
update_account_name-KeepsLedger (http_error message) = search keeps_rules
update_account_name-KeepsLedger (broken e) = search keeps_rules

pub either_field-KeepsLedger :
    (key other : String) (j : Json) → KeepsLedger (either_field key other j)
unfolding either_field
either_field-KeepsLedger key other j = search keeps_rules depth 8

pub build_customer_response-KeepsLedger :
    (rt : Runtime) (c : Customer) → KeepsLedger (build_customer_response memory rt c)
unfolding build_customer_response first_account
build_customer_response-KeepsLedger rt c = search keeps_rules depth 8

module _ (rt : Runtime) (nomba : String → String → Answer) (body : CreateCustomer) where
  -- The new customer is deleted, and the request refused.
  undo-Safe :
      (c : Customer) (e : Exception)
      → Safe
          (On (New c))
          (delete_customer memory c >> raise {A = CustomerResponse} e)
          (λ _. Sound)
          Sound
  undo-Safe c e = Safe-bind _ _ (delete_customer-Safe c) (λ _. Safe-raise e (λ w h. h))

  create_dedicated_account-Safe :
      (c : Customer) (va_data account_number : Json)
      → Safe
          (On (New c))
          (create_dedicated_account memory rt nomba body c va_data account_number)
          (λ _. Sound)
          Sound
  unfolding create_dedicated_account
  create_dedicated_account-Safe c va_data account_number =
      Safe-if (not (truthy account_number)) _ _ (λ _. undo-Safe c _)
        (λ _. Safe-bind _ _ (still (uuid4-KeepsLedger rt)) (λ id.
          Safe-bind _ _ (still (either_field-KeepsLedger _ _ va_data)) (λ va_id.
            Safe-bind _ _ (still (clock-KeepsLedger rt)) (λ t.
              Safe-bind _ _ (Safe-from _ (create_account-Safe _) (λ w h. h))
                (λ _. Safe_of_keeps IsSound (build_customer_response-KeepsLedger rt c))))))
    where
      still :
          {A : Type 0} {m : Action A} → KeepsLedger m → Safe (On (New c)) m (λ _. On (New c)) Sound
      still {m = m} k = Safe-weaken m (Safe_of_keeps (New c) k) (λ a w h. h) (λ w h. h.0)

  after_provisioning-Safe :
      (c : Customer) (r : NombaResult)
      → Safe (On (New c)) (after_provisioning memory rt nomba body c r) (λ _. Sound) Sound
  unfolding after_provisioning
  after_provisioning-Safe c r =
      Safe-if (not r.success) _ _ (λ _. undo-Safe c _)
        (λ _.
          Safe-bind _ _
            (Safe-weaken _ (Safe_of_keeps (New c) (either_field-KeepsLedger _ _ _)) (λ a w h. h)
              (λ w h. h.0))
            (λ account_number. create_dedicated_account-Safe c _ account_number))

  create_new-Safe :
      (merchant_id : Uuid)
      → Safe Sound (create_new memory rt nomba body merchant_id) (λ _. Sound) Sound
  unfolding create_new
  create_new-Safe merchant_id = Safe-bind _ _ (Safe_of_keeps IsSound (uuid4-KeepsLedger rt)) (λ id.
      Safe-bind _ _ (Safe_of_keeps IsSound (clock-KeepsLedger rt)) (λ t.
        Safe-bind _ _ (create_customer-Safe _ refl) (λ c.
          Safe-bind _ _
            (Safe-weaken _ (Safe_of_keeps (New c) (create_virtual_account-KeepsLedger _))
              (λ a w h. h) (λ w h. h.0))
            (after_provisioning-Safe c))))

  unless_account-Safe :
      (merchant_id : Uuid) (o : Option DedicatedAccount)
      → Safe Sound (unless_account memory rt nomba body merchant_id o) (λ _. Sound) Sound
  unfolding unless_account
  unless_account-Safe merchant_id (some a) = Safe-raise _ (λ w h. h)
  unless_account-Safe merchant_id none = create_new-Safe merchant_id

  unless_customer-Safe :
      (merchant_id : Uuid) (o : Option Customer)
      → Safe Sound (unless_customer memory rt nomba body merchant_id o) (λ _. Sound) Sound
  unfolding unless_customer
  unless_customer-Safe merchant_id (some c) = Safe-raise _ (λ w h. h)
  unless_customer-Safe merchant_id none =
      Safe-bind _ _ (Safe_of_keeps IsSound (search keeps_rules)) (unless_account-Safe merchant_id)

  pub customer_create-Safe :
      (merchant_id : Uuid)
      → Safe Sound (customer_create memory rt nomba body merchant_id) (λ _. Sound) Sound
  unfolding customer_create by_merchant_customer_id
  customer_create-Safe merchant_id =
      Safe-bind _ _ (Safe_of_keeps IsSound (search keeps_rules)) (unless_customer-Safe merchant_id)

module _ (parse_uuid : String → Option Uuid) (merchant_id : Uuid) (customer_id : String) where
  resolve_customer-Safe :
      Safe Sound
        (resolve_customer memory parse_uuid customer_id merchant_id)
        (λ o. On (λ cs rows ts. IsSound cs rows ts × IsFound o cs))
        Sound
  unfolding resolve_customer by_merchant_customer_id by_id or_by_merchant_id
  resolve_customer-Safe = Safe-bind _ _ (first (parse_uuid customer_id)) second
    where
      first :
          (o : Option Uuid)
          → Safe Sound
              (by_id memory parse_uuid merchant_id o)
              (λ o. On (λ cs rows ts. IsSound cs rows ts × IsFound o cs))
              Sound
      first none = Safe-pure none (λ w h. (h, tt))
      first (some id) = find_customer-Safe IsSound _

      second :
          (o : Option Customer)
          → Safe
              (On (λ cs rows ts. IsSound cs rows ts × IsFound o cs))
              (or_by_merchant_id memory parse_uuid customer_id merchant_id o)
              (λ o. On (λ cs rows ts. IsSound cs rows ts × IsFound o cs))
              Sound
      second (some c) = Safe-pure (some c) (λ w h. h)
      second none = Safe-from _ (find_customer-Safe IsSound _) (λ w h. h.0)

module _ (rt : Runtime) (parse_uuid : String → Option Uuid) where
  pub customer_get-KeepsLedger :
      (customer_id : String) (merchant_id : Uuid)
      → KeepsLedger (customer_get memory rt parse_uuid customer_id merchant_id)
  unfolding customer_get resolve_customer by_merchant_customer_id by_id or_by_merchant_id
      show_customer
  customer_get-KeepsLedger customer_id merchant_id =
      KeepsLedger-bind _ _ (KeepsLedger-bind _ _ (first (parse_uuid customer_id)) second) show
    where
      first : (o : Option Uuid) → KeepsLedger (by_id memory parse_uuid merchant_id o)
      first none = search keeps_rules
      first (some id) = search keeps_rules

      second :
          (o : Option Customer)
          → KeepsLedger (or_by_merchant_id memory parse_uuid customer_id merchant_id o)
      second none = search keeps_rules
      second (some c) = search keeps_rules

      show : (o : Option Customer) → KeepsLedger (show_customer memory rt parse_uuid o)
      show none = search keeps_rules
      show (some c) = build_customer_response-KeepsLedger rt c

module _ (rt : Runtime) (nomba_update : String → String → Answer) where
  rename_account-Safe :
      (name : String) (o : Option DedicatedAccount)
      → Safe
          (λ w. Sound w × ((a : DedicatedAccount) → o ≡ some a → Elem a w.accounts))
          (rename_account memory rt nomba_update name o)
          (λ _. Sound)
          Sound
  unfolding rename_account
  rename_account-Safe name none = Safe-pure tt (λ w h. h.0)
  rename_account-Safe name (some a) =
      let Listed : List Customer → List DedicatedAccount → List Transaction → Type 0 =
        λ cs rows ts. IsSound cs rows ts × Elem a rows in
      Safe-from _
        (Safe-bind _ _
          (Safe-weaken _ (Safe_of_keeps Listed (clock-KeepsLedger rt)) (λ t w h. h) (λ w h. h.0))
          (λ t. Safe-bind _ _ (save_account-Safe a _ refl refl) (λ saved.
            Safe-bind _ _ (Safe_of_keeps IsSound (update_account_name-KeepsLedger _))
              (λ _. Safe-pure tt (λ w h. h)))))
        (λ w h. (h.0, h.1 a refl))

  rename-Safe :
      (name : Option String) (c : Customer)
      → Safe Sound (rename memory rt nomba_update name c) (λ _. Sound) Sound
  unfolding rename
  rename-Safe none c = Safe-pure tt (λ w h. h)
  rename-Safe (some name) c =
      Safe-bind _ _ (first_account-Safe IsSound c)
        (λ o. Safe-from _ (rename_account-Safe name o) (λ w h. (h.0, listed o w h.1)))
    where
      listed :
          (o : Option DedicatedAccount) (w : World)
          → IsFirst c o w.accounts
          → (a : DedicatedAccount) → o ≡ some a
          → Elem a w.accounts
      listed none w h a e = cc
      listed (some b) w h a e = subst (λ x. Elem x w.accounts) (some-injective b a e) h

  update_found-Safe :
      (body : UpdateCustomer) (o : Option Customer)
      → Safe
          (On (λ cs rows ts. IsSound cs rows ts × IsFound o cs))
          (update_found memory rt nomba_update body o)
          (λ _. Sound)
          Sound
  unfolding update_found updated
  update_found-Safe body none = Safe-raise _ (λ w h. h.0)
  update_found-Safe body (some found) =
      Safe-bind _ _
        (Safe-weaken _
          (Safe_of_keeps (λ cs rows ts. IsSound cs rows ts × Elem found cs) (clock-KeepsLedger rt))
          (λ t w h. h) (λ w h. h.0))
        (λ t. Safe-bind _ _ (save_customer-Safe found _ refl refl) (λ saved.
          Safe-bind _ _ (rename-Safe body.name saved)
            (λ _. Safe_of_keeps IsSound (build_customer_response-KeepsLedger rt saved))))

  pub customer_update-Safe :
      (parse_uuid : String → Option Uuid) (customer_id : String) (body : UpdateCustomer)
      (merchant_id : Uuid)
      → Safe Sound
          (customer_update memory rt nomba_update parse_uuid customer_id body merchant_id)
          (λ _. Sound)
          Sound
  unfolding customer_update
  customer_update-Safe parse_uuid customer_id body merchant_id =
      Safe-bind _ _ (resolve_customer-Safe parse_uuid merchant_id customer_id)
        (update_found-Safe body)
