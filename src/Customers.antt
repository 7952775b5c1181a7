-- ===== src/Customers.antt =====
-- app/services/customers.py: customers and the account that each is given.
pub mod Creation
pub mod Created
pub mod Steps
pub mod Stranded
pub mod Shown
pub mod Updated
pub mod Profile
use ldb_backend_hack.Base.{
  ℕ, String, ◌==◌, nat_eq, string_eq, ◌&&◌, Bool, not, pos, remove_spaces, Option, none, some, List,
  [], ◌∷◌, if◌then◌else◌,
}
use ldb_backend_hack.Json.{Json, null, object, end, truthy, or_json}
use ldb_backend_hack.Model.{Customer, DedicatedAccount, Decimal, Uuid, active}
use ldb_backend_hack.Action.{
  Action, Result, ok, pure, raise, lift, ask, error_response, ◌>>=◌, ◌>>◌,
}
use ldb_backend_hack.Orm.{Orm}
use ldb_backend_hack.Runtime.{Runtime, get_default, py_str, nullable_text, uuid4, clock}
use ldb_backend_hack.Tables.{
  create_customer, create_account, save_customer, save_account, delete_customer,
}
use ldb_backend_hack.Nomba.{Answer, NombaResult, create_virtual_account, update_account_name}
use ldb_backend_hack.Responses.{CustomerResponse, first_account, build_customer_response}

-- `CreateCustomerRequestSchema`
pub record CreateCustomer : Type 0 where
  pub merchant_customer_id : String
  pub name : String
  pub email : Option String
  pub phone : Option String
  pub target_amount : Option Decimal
  pub metadata : Json

-- `UpdateCustomerRequestSchema`
pub record UpdateCustomer : Type 0 where
  pub name : Option String
  pub email : Option String
  pub phone : Option String
  pub target_amount : Option Decimal
  pub metadata : Option Json

-- `va_data.get(key) or va_data.get(other)`
unfoldable pub either_field : String → String → Json → Action Json
either_field key other va_data = do
  first ← lift (get_default va_data key null)
  second ← lift (get_default va_data other null)
  pure (or_json first second)

-- The new value of a column: that of the request, where it has one.
abbrev pub or_keep {ℓ} : {A : Type ℓ} → Option A → A → A
or_keep none old = old
or_keep (some new) old = new

abbrev pub or_keep_option {ℓ} : {A : Type ℓ} → Option A → Option A → Option A
or_keep_option none old = old
or_keep_option (some new) old = some new

module _ (orm : Orm) where
  unfoldable pub by_merchant_customer_id : Uuid → String → Action (Option Customer)
  by_merchant_customer_id merchant_id merchant_customer_id = ask (λ w.
      orm.get_or_none Customer
        (λ c. c.merchant_id == merchant_id && c.merchant_customer_id == merchant_customer_id)
        w.customers)

-- `nomba` stands for the HTTP calls, which are given the reference and the name of the account,
-- and `parse_uuid` for `UUID(s)`, with `none` where it raises `ValueError`.
module _ (orm : Orm) (rt : Runtime) (nomba : String → String → Answer) where
  -- From the test on the account number on.
  unfoldable pub create_dedicated_account :
      CreateCustomer → Customer → Json → Json → Action CustomerResponse
  create_dedicated_account body customer va_data account_number =
      if not (truthy account_number)
      then delete_customer orm customer
        >> raise (error_response 502 "Nomba response missing account number" none)
      else do
        id ← uuid4 rt
        va_id ← either_field "id" "accountId" va_data
        t ← clock rt
        create_account orm (record {
          id = id;
          customer_id = customer.id;
          nomba_va_id = nullable_text rt va_id;
          account_number = remove_spaces (py_str rt account_number);
          account_name = body.name;
          account_ref = body.merchant_customer_id;
          status = active;
          created_at = t;
          updated_at = t;
        })
        build_customer_response orm rt customer

  -- From the test `if not nomba_result["success"]` on.
  unfoldable pub after_provisioning :
      CreateCustomer → Customer → NombaResult → Action CustomerResponse
  after_provisioning body customer nomba_result =
      if not nomba_result.success
      then delete_customer orm customer
        >> raise (
            error_response 502 "Failed to provision Nomba virtual account"
              (some (nomba_result.message ∷ [])))
      else do
        let va_data = or_json nomba_result.body (object end)
        account_number ← either_field "accountNumber" "bankAccountNumber" va_data
        create_dedicated_account body customer va_data account_number

  unfoldable pub create_new : CreateCustomer → Uuid → Action CustomerResponse
  create_new body merchant_id = do
    id ← uuid4 rt
    t ← clock rt
    customer ← create_customer orm (record {
      id = id;
      merchant_id = merchant_id;
      merchant_customer_id = body.merchant_customer_id;
      name = body.name;
      email = body.email;
      phone = body.phone;
      target_amount = body.target_amount;
      wallet_balance = pos 0;
      metadata = body.metadata;
      created_at = t;
      updated_at = t;
    })
    nomba_result ← create_virtual_account (nomba body.merchant_customer_id body.name)
    after_provisioning body customer nomba_result

  unfoldable pub unless_account :
      CreateCustomer → Uuid → Option DedicatedAccount → Action CustomerResponse
  unless_account body merchant_id (some account) =
      raise (error_response 409 "Dedicated account reference already exists" none)
  unless_account body merchant_id none = create_new body merchant_id

  unfoldable pub unless_customer : CreateCustomer → Uuid → Option Customer → Action CustomerResponse
  unless_customer body merchant_id (some customer) =
      raise (error_response 409 "Customer with this merchant_customer_id already exists" none)
  unless_customer body merchant_id none = do
    account ← ask (λ w.
        ok
          (orm.first DedicatedAccount (λ a. a.account_ref == body.merchant_customer_id) w.accounts))
    unless_account body merchant_id account

  -- `CustomerService.create`
  unfoldable pub customer_create : CreateCustomer → Uuid → Action CustomerResponse
  customer_create body merchant_id = do
    existing ← by_merchant_customer_id orm merchant_id body.merchant_customer_id
    unless_customer body merchant_id existing
