-- ===== src/Responses.antt =====
-- The response builders of app/services/helpers.py.
use ldb_backend_hack.Base.{ℕ, ℤ, String, ◌==◌, nat_eq, Option, none, some}
use ldb_backend_hack.Json.{Json}
use ldb_backend_hack.Model.{Customer, DedicatedAccount, Decimal, Uuid, AccountStatus}
use ldb_backend_hack.Action.{Action, ok, pure, ask, ◌>>=◌}
use ldb_backend_hack.Orm.{Orm}
use ldb_backend_hack.Runtime.{Runtime}
use ldb_backend_hack.Helpers.{customer_status, outstanding_balance, progress_percentage}
use ldb_backend_hack.Reconciliation.{fetch_customer}

-- The dict `dedicated_account` of a customer's response, less its constant `bank_name`.
pub record AccountSummary : Type 0 where
  pub id : Uuid
  pub account_number : String
  pub account_name : String
  pub status : AccountStatus

pub record CustomerResponse : Type 0 where
  pub id : Uuid
  pub merchant_customer_id : String
  pub name : String
  pub email : Option String
  pub phone : Option String
  pub target_amount : Option Decimal
  pub wallet_balance : Decimal
  pub outstanding_balance : Option Decimal
  pub progress_percentage : Option ℤ
  pub status : String
  pub metadata : Json
  pub dedicated_account : Option AccountSummary
  pub created_at : ℕ
  pub updated_at : ℕ

-- The dict of an account, less its constant `bank_name`.
pub record AccountResponse : Type 0 where
  pub id : Uuid
  pub customer_id : Uuid
  pub merchant_customer_id : String
  pub nomba_va_id : Option String
  pub account_number : String
  pub account_name : String
  pub account_ref : String
  pub status : AccountStatus
  pub wallet_balance : Decimal
  pub created_at : ℕ
  pub updated_at : ℕ

abbrev pub summary_of : Option DedicatedAccount → Option AccountSummary
summary_of none = none
summary_of (some account) = some (record {
  id = account.id;
  account_number = account.account_number;
  account_name = account.account_name;
  status = account.status;
})

module _ (orm : Orm) where
  -- `DedicatedAccount.filter(customer_id=customer.id).first()`
  unfoldable pub first_account : Customer → Action (Option DedicatedAccount)
  first_account customer =
      ask (λ w. ok (orm.first DedicatedAccount (λ a. a.customer_id == customer.id) w.accounts))

  unfoldable pub build_customer_response : Runtime → Customer → Action CustomerResponse
  build_customer_response rt customer = do
    account ← first_account customer
    pure (record {
      id = customer.id;
      merchant_customer_id = customer.merchant_customer_id;
      name = customer.name;
      email = customer.email;
      phone = customer.phone;
      target_amount = customer.target_amount;
      wallet_balance = customer.wallet_balance;
      outstanding_balance = outstanding_balance customer;
      progress_percentage = progress_percentage rt customer;
      status = customer_status customer;
      metadata = customer.metadata;
      dedicated_account = summary_of account;
      created_at = customer.created_at;
      updated_at = customer.updated_at;
    })

  unfoldable pub build_account_response : DedicatedAccount → Action AccountResponse
  build_account_response account = do
    customer ← fetch_customer orm account
    pure (record {
      id = account.id;
      customer_id = customer.id;
      merchant_customer_id = customer.merchant_customer_id;
      nomba_va_id = account.nomba_va_id;
      account_number = account.account_number;
      account_name = account.account_name;
      account_ref = account.account_ref;
      status = account.status;
      wallet_balance = customer.wallet_balance;
      created_at = account.created_at;
      updated_at = account.updated_at;
    })
