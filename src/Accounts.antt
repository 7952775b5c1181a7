-- ===== src/Accounts.antt =====
-- app/services/accounts.py: a dedicated account for a customer that has none.
pub mod Added
pub mod Opened
use ldb_backend_hack.Base.{
  String, ◌==◌, string_eq, not, remove_spaces, Option, none, some, [], ◌∷◌, if◌then◌else◌,
}
use ldb_backend_hack.Json.{Json, object, end, truthy, or_json}
use ldb_backend_hack.Model.{Customer, DedicatedAccount, Uuid, active}
use ldb_backend_hack.Action.{Action, raise, error_response, ◌>>=◌}
use ldb_backend_hack.Orm.{Orm}
use ldb_backend_hack.Runtime.{Runtime, py_str, nullable_text, uuid4, clock}
use ldb_backend_hack.Tables.{create_account}
use ldb_backend_hack.Nomba.{Answer, NombaResult, create_virtual_account}
use ldb_backend_hack.Responses.{AccountResponse, first_account, build_account_response}
use ldb_backend_hack.Customers.{either_field, by_merchant_customer_id}
use ldb_backend_hack.Statements.{owned_account}

-- `CreateDedicatedAccountRequestSchema`
pub record CreateDedicatedAccount : Type 0 where
  pub merchant_customer_id : String
  pub account_name : Option String

-- `body.account_name or customer.name`
unfoldable pub account_name_of : Option String → Customer → String
account_name_of none customer = customer.name
account_name_of (some name) customer = if name == "" then customer.name else name

-- `nomba` stands for the HTTP calls, which are given the reference and the name of the account.
module _ (orm : Orm) (rt : Runtime) (nomba : String → String → Answer) where
  -- From the test on the account number on.
  unfoldable pub store_account : Customer → String → Json → Json → Action AccountResponse
  store_account customer account_name va_data account_number =
      if not (truthy account_number)
      then raise (error_response 502 "Nomba response missing account number" none)
      else do
        id ← uuid4 rt
        va_id ← either_field "id" "accountId" va_data
        t ← clock rt
        account ← create_account orm (record {
          id = id;
          customer_id = customer.id;
          nomba_va_id = nullable_text rt va_id;
          account_number = remove_spaces (py_str rt account_number);
          account_name = account_name;
          account_ref = customer.merchant_customer_id;
          status = active;
          created_at = t;
          updated_at = t;
        })
        build_account_response orm account

  -- From the test `if not nomba_result["success"]` on.
  unfoldable pub account_of_result : Customer → String → NombaResult → Action AccountResponse
  account_of_result customer account_name nomba_result =
      if not nomba_result.success
      then raise (
          error_response 502 "Failed to provision Nomba virtual account"
            (some (nomba_result.message ∷ [])))
      else do
        let va_data = or_json nomba_result.body (object end)
        account_number ← either_field "accountNumber" "bankAccountNumber" va_data
        store_account customer account_name va_data account_number

  unfoldable pub provision_account :
      CreateDedicatedAccount → Customer → Option DedicatedAccount → Action AccountResponse
  provision_account body customer (some account) =
      raise (error_response 409 "Customer already has a dedicated account" none)
  provision_account body customer none = do
    let account_name = account_name_of body.account_name customer
    nomba_result ← create_virtual_account (nomba customer.merchant_customer_id account_name)
    account_of_result customer account_name nomba_result

  unfoldable pub account_for_customer :
      CreateDedicatedAccount → Option Customer → Action AccountResponse
  account_for_customer body none = raise (error_response 404 "Customer not found" none)
  account_for_customer body (some customer) =
      first_account orm customer >>= provision_account body customer

  -- `AccountService.create_dedicated`
  unfoldable pub create_dedicated : CreateDedicatedAccount → Uuid → Action AccountResponse
  create_dedicated body merchant_id =
      by_merchant_customer_id orm merchant_id body.merchant_customer_id
      >>= account_for_customer body

module _ (orm : Orm) where
  -- `AccountService.get`
  unfoldable pub account_get : Uuid → Uuid → Action AccountResponse
  account_get account_id merchant_id = do
    (account, customer) ← owned_account orm account_id merchant_id
    build_account_response orm account
