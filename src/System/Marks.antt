-- ===== src/System/Marks.antt =====
-- No request and no run of the job forgets a processed event.
use ldb_backend_hack.Base.{String, Option, none, some, string_eq, ap}
use ldb_backend_hack.Json.{Json}
use ldb_backend_hack.Model.{World, Customer, DedicatedAccount, Uuid}
use ldb_backend_hack.Action.{pure, raise, value_error}
use ldb_backend_hack.Orm.Memory.{memory}
use ldb_backend_hack.Runtime.{Runtime}
use ldb_backend_hack.References.Draws.{generate_reference-Reads}
use ldb_backend_hack.Nomba.{
  Answer, responded, status_error, http_error, broken, NombaResult, create_virtual_account,
  update_account_name,
}
use ldb_backend_hack.Responses.{first_account, build_customer_response, build_account_response}
use ldb_backend_hack.Forwarder.{register}
use ldb_backend_hack.Reconciliation.{fetch_customer, get_by_number}
use ldb_backend_hack.Customers.{
  CreateCustomer, UpdateCustomer, either_field, by_merchant_customer_id, create_dedicated_account,
  after_provisioning, create_new, unless_account, unless_customer, customer_create,
}
use ldb_backend_hack.Customers.Profile.{
  by_id, or_by_merchant_id, resolve_customer, show_customer, customer_get, rename_account, rename,
  update_found, customer_update,
}
use ldb_backend_hack.Accounts.{
  CreateDedicatedAccount, store_account, account_of_result, provision_account, account_for_customer,
  create_dedicated, account_get,
}
use ldb_backend_hack.Statements.{owned_by, owned_account, list_transactions, get_statement}
use ldb_backend_hack.Webhooks.{simulate}
use ldb_backend_hack.Webhooks.Marks.{
  IsMarked, KeepsMark, KeepsMark-bind, KeepsMark-pure, KeepsMark-raise, KeepsMark-if,
  KeepsMark-Reads, marks_rules,
}
use ldb_backend_hack.Webhooks.Kept.{receive-KeepsMark}
use ldb_backend_hack.Hooks.{nomba_webhook}
use ldb_backend_hack.Nightly.Run.{run_nightly_reconciliation-Checked}
use ldb_backend_hack.Api.{
  Outside, Request, get_health, post_nomba, bearer, Route, customers, accounts, hooks,
  post_customers, get_customer, patch_customer, post_dedicated, get_account,
  get_account_transactions, get_account_statement, post_register, post_simulate, default_merchant,
  get_merchant_from_bearer, customer_controller, account_controller, hook_controller, controller,
  serve, answer,
}
use ldb_backend_hack.System.{Step, request, nightly, Later, here, after}

module _ (request_id : String) where
  create_virtual_account-KeepsMark : (a : Answer) → KeepsMark request_id (create_virtual_account a)
  unfolding create_virtual_account
  create_virtual_account-KeepsMark (responded code body) = search marks_rules depth 8
  create_virtual_account-KeepsMark (status_error code message) = search marks_rules
  create_virtual_account-KeepsMark (http_error message) = search marks_rules
  create_virtual_account-KeepsMark (broken e) = search marks_rules

  update_account_name-KeepsMark : (a : Answer) → KeepsMark request_id (update_account_name a)
  unfolding update_account_name
  update_account_name-KeepsMark (responded code body) = search marks_rules depth 8
  update_account_name-KeepsMark (status_error code message) = search marks_rules
  update_account_name-KeepsMark (http_error message) = search marks_rules
  update_account_name-KeepsMark (broken e) = search marks_rules

  either_field-KeepsMark :
      (key other : String) (j : Json) → KeepsMark request_id (either_field key other j)
  unfolding either_field
  either_field-KeepsMark key other j = search marks_rules depth 8

  build_customer_response-KeepsMark :
      (rt : Runtime) (c : Customer) → KeepsMark request_id (build_customer_response memory rt c)
  unfolding build_customer_response first_account
  build_customer_response-KeepsMark rt c = search marks_rules depth 8

  build_account_response-KeepsMark :
      (a : DedicatedAccount) → KeepsMark request_id (build_account_response memory a)
  unfolding build_account_response fetch_customer
  build_account_response-KeepsMark a = search marks_rules depth 8

ruleset services_rules = (
  marks_rules, create_virtual_account-KeepsMark, update_account_name-KeepsMark,
  either_field-KeepsMark, build_customer_response-KeepsMark, build_account_response-KeepsMark,
)

module _ (request_id : String) (rt : Runtime) (nomba : String → String → Answer) where
  module _ (body : CreateCustomer) (m : Uuid) where
    after_provisioning-KeepsMark :
        (c : Customer) (r : NombaResult)
        → KeepsMark request_id (after_provisioning memory rt nomba body c r)
    unfolding after_provisioning create_dedicated_account
    after_provisioning-KeepsMark c r = search services_rules depth 24

    create_new-KeepsMark : KeepsMark request_id (create_new memory rt nomba body m)
    unfolding create_new
    create_new-KeepsMark = search (services_rules, after_provisioning-KeepsMark) depth 12

    customer_create-KeepsMark : KeepsMark request_id (customer_create memory rt nomba body m)
    unfolding customer_create by_merchant_customer_id unless_customer unless_account
    customer_create-KeepsMark = KeepsMark-bind _ _ (search marks_rules) unless
      where
        new :
            (o : Option DedicatedAccount)
            → KeepsMark request_id (unless_account memory rt nomba body m o)
        new none = create_new-KeepsMark
        new (some a) = KeepsMark-raise _

        unless :
            (o : Option Customer) → KeepsMark request_id (unless_customer memory rt nomba body m o)
        unless none = KeepsMark-bind _ _ (search marks_rules) new
        unless (some c) = KeepsMark-raise _

  account_of_result-KeepsMark :
      (c : Customer) (name : String) (r : NombaResult)
      → KeepsMark request_id (account_of_result memory rt nomba c name r)
  unfolding account_of_result store_account
  account_of_result-KeepsMark c name r = search services_rules depth 24

  create_dedicated-KeepsMark :
      (body : CreateDedicatedAccount) (m : Uuid)
      → KeepsMark request_id (create_dedicated memory rt nomba body m)
  unfolding create_dedicated by_merchant_customer_id account_for_customer first_account
      provision_account
  create_dedicated-KeepsMark body m = KeepsMark-bind _ _ (search marks_rules) for_customer
    where
      provision :
          (c : Customer) (o : Option DedicatedAccount)
          → KeepsMark request_id (provision_account memory rt nomba body c o)
      provision c none = search (services_rules, account_of_result-KeepsMark) depth 8
      provision c (some a) = KeepsMark-raise _

      for_customer :
          (o : Option Customer) → KeepsMark request_id (account_for_customer memory rt nomba body o)
      for_customer none = KeepsMark-raise _
      for_customer (some c) = KeepsMark-bind _ _ (search marks_rules) (provision c)

module _ (request_id : String) (rt : Runtime) (parse_uuid : String → Option Uuid) (id : String)
    (m : Uuid) where
  resolve_customer-KeepsMark : KeepsMark request_id (resolve_customer memory parse_uuid id m)
  unfolding resolve_customer by_merchant_customer_id by_id or_by_merchant_id
  resolve_customer-KeepsMark = KeepsMark-bind _ _ (first (parse_uuid id)) second
    where
      first : (o : Option Uuid) → KeepsMark request_id (by_id memory parse_uuid m o)
      first none = search marks_rules
      first (some i) = search marks_rules

      second :
          (o : Option Customer) → KeepsMark request_id (or_by_merchant_id memory parse_uuid id m o)
      second none = search marks_rules
      second (some c) = search marks_rules

  customer_get-KeepsMark : KeepsMark request_id (customer_get memory rt parse_uuid id m)
  unfolding customer_get show_customer
  customer_get-KeepsMark = KeepsMark-bind _ _ resolve_customer-KeepsMark show
    where
      show : (o : Option Customer) → KeepsMark request_id (show_customer memory rt parse_uuid o)
      show none = KeepsMark-raise _
      show (some c) = build_customer_response-KeepsMark request_id rt c

  module _ (nomba_update : String → String → Answer) where
    rename-KeepsMark :
        (name : Option String) (c : Customer)
        → KeepsMark request_id (rename memory rt nomba_update name c)
    unfolding rename first_account rename_account
    rename-KeepsMark none c = KeepsMark-pure tt
    rename-KeepsMark (some name) c = KeepsMark-bind _ _ (search marks_rules) account
      where
        account :
            (o : Option DedicatedAccount)
            → KeepsMark request_id (rename_account memory rt nomba_update name o)
        account none = KeepsMark-pure tt
        account (some a) = search services_rules depth 8

    customer_update-KeepsMark :
        (body : UpdateCustomer)
        → KeepsMark request_id (customer_update memory rt nomba_update parse_uuid id body m)
    unfolding customer_update update_found
    customer_update-KeepsMark body = KeepsMark-bind _ _ resolve_customer-KeepsMark found
      where
        found :
            (o : Option Customer)
            → KeepsMark request_id (update_found memory rt nomba_update body o)
        found none = KeepsMark-raise _
        found (some c) = search (services_rules, rename-KeepsMark) depth 12

module _ (request_id : String) (account_id m : Uuid) where
  owned_account-KeepsMark : KeepsMark request_id (owned_account memory account_id m)
  unfolding owned_account owned_by fetch_customer
  owned_account-KeepsMark = KeepsMark-bind _ _ (search marks_rules) owner
    where
      owner : (o : Option DedicatedAccount) → KeepsMark request_id (owned_by memory m o)
      owner none = search marks_rules
      owner (some a) = search marks_rules depth 8

module _ (request_id : String) (rt : Runtime) (outside : Outside) where
  with_merchant-KeepsMark :
      (credentials : String)
      → KeepsMark request_id (get_merchant_from_bearer outside.settings credentials)
  unfolding get_merchant_from_bearer default_merchant
  with_merchant-KeepsMark credentials =
      KeepsMark-if _ _ _ (KeepsMark-raise _) (go outside.settings.default_merchant_id)
    where
      go :
          (o : Option Uuid)
          → KeepsMark request_id {A = Uuid}
              (elim o [ none ↦ raise value_error | some id ↦ pure id ])
      go none = KeepsMark-raise _
      go (some id) = KeepsMark-pure id

  controller-KeepsMark :
      (credentials : String) (route : Route)
      → KeepsMark request_id (controller memory rt outside credentials route)
  unfolding controller customer_controller account_controller hook_controller account_get
      list_transactions get_statement register simulate get_by_number
  controller-KeepsMark credentials (customers (post_customers body)) =
      search (services_rules, with_merchant-KeepsMark, customer_create-KeepsMark) depth 8
  controller-KeepsMark credentials (customers (get_customer id)) =
      search (services_rules, with_merchant-KeepsMark, customer_get-KeepsMark) depth 8
  controller-KeepsMark credentials (customers (patch_customer id body)) =
      search (services_rules, with_merchant-KeepsMark, customer_update-KeepsMark) depth 8
  controller-KeepsMark credentials (accounts (post_dedicated body)) =
      search (services_rules, with_merchant-KeepsMark, create_dedicated-KeepsMark) depth 8
  controller-KeepsMark credentials (accounts (get_account id)) =
      search (services_rules, with_merchant-KeepsMark, owned_account-KeepsMark) depth 8
  controller-KeepsMark credentials (accounts (get_account_transactions id filters)) =
      search (services_rules, with_merchant-KeepsMark, owned_account-KeepsMark) depth 8
  controller-KeepsMark credentials (accounts (get_account_statement id)) =
      search (services_rules, with_merchant-KeepsMark, owned_account-KeepsMark) depth 8
  controller-KeepsMark credentials (hooks (post_register body)) =
      search (services_rules, with_merchant-KeepsMark) depth 12
  controller-KeepsMark credentials (hooks (post_simulate body)) =
      KeepsMark-bind _ _ (with_merchant-KeepsMark credentials) (λ merchant.
        KeepsMark-bind _ _
          (KeepsMark-bind _ _ (search marks_rules) (λ o.
            KeepsMark-bind _ _ (KeepsMark-Reads (generate_reference-Reads rt))
              (λ id. receive-KeepsMark request_id rt _)))
          (λ r. KeepsMark-pure _))

  serve-KeepsMark : (r : Request) → KeepsMark request_id (serve memory rt outside r)
  unfolding serve nomba_webhook
  serve-KeepsMark get_health = KeepsMark-pure _
  serve-KeepsMark (post_nomba raw_body signature) = search (marks_rules, receive-KeepsMark) depth 12
  serve-KeepsMark (bearer credentials route) = controller-KeepsMark credentials route

Step-IsMarked :
    (request_id : String) (rt : Runtime) {w w' : World}
    → Step memory rt w w'
    → IsMarked request_id w
    → IsMarked request_id w'
unfolding answer
Step-IsMarked request_id rt {w} (request outside r accepted) h =
    (serve-KeepsMark request_id rt outside r).at w h
Step-IsMarked request_id rt {w} (nightly nomba_list) h =
    let c = run_nightly_reconciliation-Checked rt nomba_list w in
    rw (ap (λ (v : World). v.processed_events) c.state) h

pub Later-IsMarked :
    (request_id : String) (rt : Runtime) {w w' : World}
    → Later memory rt w w'
    → IsMarked request_id w
    → IsMarked request_id w'
Later-IsMarked request_id rt here h = h
Later-IsMarked request_id rt (after before step) h =
    Step-IsMarked request_id rt step (Later-IsMarked request_id rt before h)
