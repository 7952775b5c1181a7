-- ===== src/Api.antt =====
-- app/api/: the routes, the merchant's API key, and the controllers behind them.
pub mod Access
use ldb_backend_hack.Base.{
  ℕ, String, ◌==◌, string_eq, Bool, true, false, not, Option, none, some, List, if◌then◌else◌,
}
use ldb_backend_hack.Model.{World, Transaction, WebhookRegistration, Uuid}
use ldb_backend_hack.Action.{Action, pure, raise, error_response, value_error, ◌>>=◌}
use ldb_backend_hack.Orm.{Orm}
use ldb_backend_hack.Runtime.{Runtime}
use ldb_backend_hack.Nomba.{Answer}
use ldb_backend_hack.Responses.{CustomerResponse, AccountResponse}
use ldb_backend_hack.Customers.{CreateCustomer, UpdateCustomer, customer_create}
use ldb_backend_hack.Customers.Profile.{customer_get, customer_update}
use ldb_backend_hack.Accounts.{CreateDedicatedAccount, create_dedicated, account_get}
use ldb_backend_hack.Statements.{
  PaginateFilter, TransactionPage, Statement, list_transactions, get_statement,
}
use ldb_backend_hack.Forwarder.{RegisterWebhook, register}
use ldb_backend_hack.Webhooks.{SimulateFunding, Receipt, simulate}
use ldb_backend_hack.Hooks.{Gate, nomba_webhook}
use ldb_backend_hack.Handlers.{Response, respond}

-- app/settings.py, as far as the API key goes.
pub record Settings : Type 0 where
  pub ldb_api_key : String
  -- `UUID(settings.DEFAULT_MERCHANT_ID)`, with `none` where it raises `ValueError`
  pub default_merchant_id : Option Uuid

-- What the controllers take from outside, beside the ORM and the runtime.
pub record Outside : Type 0 where
  pub settings : Settings
  pub gate : Gate
  -- The HTTP calls of Nomba's client, by the reference and the name of the account.
  pub nomba : String → String → Answer
  pub nomba_update : String → String → Answer
  -- `UUID(s)`, and `order_by("-created_at")`
  pub parse_uuid : String → Option Uuid
  pub newest_first : List Transaction → List Transaction

module _ (settings : Settings) where
  -- `UUID(settings.DEFAULT_MERCHANT_ID)`
  unfoldable pub default_merchant : Action Uuid
  default_merchant = elim settings.default_merchant_id [
    | none ↦ raise value_error
    | some id ↦ pure id
  ]

  unfoldable pub get_merchant_from_bearer : String → Action Uuid
  get_merchant_from_bearer credentials =
      if not (credentials == settings.ldb_api_key)
      then raise (error_response 401 "Unauthorized access" none)
      else default_merchant

-- The routes of app/api/router/customers.py, accounts.py and hooks.py with webhooks.py, each with
-- what FastAPI has parsed for it.
pub data CustomerRoute : Type 0 where
  post_customers : CreateCustomer → CustomerRoute
  get_customer : String → CustomerRoute
  patch_customer : String → UpdateCustomer → CustomerRoute

pub data AccountRoute : Type 0 where
  post_dedicated : CreateDedicatedAccount → AccountRoute
  get_account : Uuid → AccountRoute
  get_account_transactions : Uuid → PaginateFilter → AccountRoute
  get_account_statement : Uuid → AccountRoute

pub data HookRoute : Type 0 where
  post_register : RegisterWebhook → HookRoute
  post_simulate : SimulateFunding → HookRoute

-- The routes that are sent credentials.
pub data Route : Type 0 where
  customers : CustomerRoute → Route
  accounts : AccountRoute → Route
  hooks : HookRoute → Route

pub data Request : Type 0 where
  get_health : Request
  -- the body and the header `nomba-signature`
  post_nomba : String → Option String → Request
  -- the credentials that `HTTPBearer` has read, and the route
  bearer : String → Route → Request

-- The data of the success envelopes.
pub data Reply : Type 0 where
  healthy : Reply
  customer_reply : CustomerResponse → Reply
  account_reply : AccountResponse → Reply
  page_reply : TransactionPage → Reply
  statement_reply : Statement → Reply
  registration_reply : WebhookRegistration → Reply
  receipt_reply : Receipt → Reply

-- The `status_code` of each route.
unfoldable pub customer_code : CustomerRoute → ℕ
customer_code (post_customers body) = 201
customer_code route = 200

unfoldable pub account_code : AccountRoute → ℕ
account_code (post_dedicated body) = 201
account_code route = 200

unfoldable pub hook_code : HookRoute → ℕ
hook_code (post_register body) = 201
hook_code route = 200

unfoldable pub route_code : Route → ℕ
route_code (customers route) = customer_code route
route_code (accounts route) = account_code route
route_code (hooks route) = hook_code route

unfoldable pub success_code : Request → ℕ
success_code (bearer credentials route) = route_code route
success_code request = 200

module _ (orm : Orm) (rt : Runtime) (outside : Outside) where
  -- app/api/controller/customers.py; each controller with a parameter `ValidMerchant` starts with
  -- that dependency.
  unfoldable pub customer_controller : String → CustomerRoute → Action Reply
  customer_controller credentials (post_customers body) = do
    merchant ← get_merchant_from_bearer outside.settings credentials
    response ← customer_create orm rt outside.nomba body merchant
    pure (customer_reply response)
  customer_controller credentials (get_customer customer_id) = do
    merchant ← get_merchant_from_bearer outside.settings credentials
    response ← customer_get orm rt outside.parse_uuid customer_id merchant
    pure (customer_reply response)
  customer_controller credentials (patch_customer customer_id body) = do
    merchant ← get_merchant_from_bearer outside.settings credentials
    response ←
        customer_update orm rt outside.nomba_update outside.parse_uuid customer_id body merchant
    pure (customer_reply response)

  -- app/api/controller/accounts.py
  unfoldable pub account_controller : String → AccountRoute → Action Reply
  account_controller credentials (post_dedicated body) = do
    merchant ← get_merchant_from_bearer outside.settings credentials
    response ← create_dedicated orm rt outside.nomba body merchant
    pure (account_reply response)
  account_controller credentials (get_account account_id) = do
    merchant ← get_merchant_from_bearer outside.settings credentials
    response ← account_get orm account_id merchant
    pure (account_reply response)
  account_controller credentials (get_account_transactions account_id filters) = do
    merchant ← get_merchant_from_bearer outside.settings credentials
    page ← list_transactions orm outside.newest_first account_id merchant filters
    pure (page_reply page)
  account_controller credentials (get_account_statement account_id) = do
    merchant ← get_merchant_from_bearer outside.settings credentials
    statement ← get_statement orm outside.newest_first account_id merchant
    pure (statement_reply statement)

  -- `register_webhook` and `simulate_funding` of app/api/controller/hooks.py
  unfoldable pub hook_controller : String → HookRoute → Action Reply
  hook_controller credentials (post_register body) = do
    merchant ← get_merchant_from_bearer outside.settings credentials
    registration ← register orm rt body merchant
    pure (registration_reply registration)
  hook_controller credentials (post_simulate body) = do
    merchant ← get_merchant_from_bearer outside.settings credentials
    receipt ← simulate orm rt body
    pure (receipt_reply receipt)

  unfoldable pub controller : String → Route → Action Reply
  controller credentials (customers route) = customer_controller credentials route
  controller credentials (accounts route) = account_controller credentials route
  controller credentials (hooks route) = hook_controller credentials route

  unfoldable pub serve : Request → Action Reply
  serve get_health = pure healthy
  serve (post_nomba raw_body signature) = do
    receipt ← nomba_webhook outside.gate orm rt raw_body signature
    pure (receipt_reply receipt)
  serve (bearer credentials route) = controller credentials route

  -- The response that a request gets, and the state afterwards.
  unfoldable pub answer : Request → World → Response Reply × World
  answer request w =
      let (result, w') = serve request w in (respond (success_code request) result, w')
