-- ===== src/Model/Rows.antt =====
-- app/models/customers.py and app/models/transactions.py: one record for each table, and for each
-- table the test by which its primary key and unique constraints refuse a new row.
use ldb_backend_hack.Base.{ℤ, ℕ, String, Bool, ◌&&◌, ◌||◌, Option, List, ◌==◌, nat_eq, string_eq}
use ldb_backend_hack.Json.{Json}
use ldb_backend_hack.Model.Enums.{AccountStatus, TransactionType, TransactionStatus}

-- `Decimal` with two places, in hundredths.
abbrev pub Decimal : Type 0
Decimal = ℤ

-- The 128-bit value of a UUID.
abbrev pub Uuid : Type 0
Uuid = ℕ

pub record Customer : Type 0 where
  pub id : Uuid
  pub merchant_id : Uuid
  pub merchant_customer_id : String
  pub name : String
  pub email : Option String
  pub phone : Option String
  pub target_amount : Option Decimal
  pub wallet_balance : Decimal
  pub metadata : Json
  pub created_at : ℕ
  pub updated_at : ℕ

pub record DedicatedAccount : Type 0 where
  pub id : Uuid
  pub customer_id : Uuid
  pub nomba_va_id : Option String
  pub account_number : String
  pub account_name : String
  pub account_ref : String
  pub status : AccountStatus
  pub created_at : ℕ
  pub updated_at : ℕ

pub record Transaction : Type 0 where
  pub id : Uuid
  pub dedicated_account_id : Option Uuid
  pub nomba_request_id : String
  pub nomba_transaction_id : Option String
  pub merchant_tx_ref : Option String
  pub amount : Decimal
  pub fee : Decimal
  pub sender_name : Option String
  pub sender_bank : Option String
  pub type : TransactionType
  pub status : TransactionStatus
  pub narration : Option String
  pub raw_payload : Json
  pub created_at : ℕ

pub record SuspenseLog : Type 0 where
  pub id : Uuid
  pub transaction_id : Uuid
  pub reason : String
  pub amount : Decimal
  pub resolved : Bool
  pub resolved_at : Option ℕ
  pub created_at : ℕ

pub record ReconciliationLog : Type 0 where
  pub id : Uuid
  pub transaction_id : Uuid
  pub expected_amount : Option Decimal
  pub received_amount : Decimal
  pub decision : String
  pub details : Json
  pub created_at : ℕ

pub record WebhookRegistration : Type 0 where
  pub id : Uuid
  pub merchant_id : Uuid
  pub url : String
  pub secret : String
  pub events : List String
  pub active : Bool
  pub created_at : ℕ

pub record ProcessedWebhookEvent : Type 0 where
  pub id : Uuid
  pub request_id : String
  pub event_type : String
  pub processed_at : ℕ

-- `unique_together = (("merchant_id", "merchant_customer_id"),)`
abbrev pub customer_conflict : Customer → Customer → Bool
customer_conflict new old =
    new.id == old.id
    || (new.merchant_id == old.merchant_id && new.merchant_customer_id == old.merchant_customer_id)

abbrev pub account_conflict : DedicatedAccount → DedicatedAccount → Bool
account_conflict new old =
    new.id == old.id
    || (new.account_number == old.account_number || new.account_ref == old.account_ref)

abbrev pub transaction_conflict : Transaction → Transaction → Bool
transaction_conflict new old = new.id == old.id || new.nomba_request_id == old.nomba_request_id

abbrev pub suspense_conflict : SuspenseLog → SuspenseLog → Bool
suspense_conflict new old = new.id == old.id

abbrev pub reconciliation_conflict : ReconciliationLog → ReconciliationLog → Bool
reconciliation_conflict new old = new.id == old.id

abbrev pub registration_conflict : WebhookRegistration → WebhookRegistration → Bool
registration_conflict new old = new.id == old.id

abbrev pub processed_conflict : ProcessedWebhookEvent → ProcessedWebhookEvent → Bool
processed_conflict new old = new.id == old.id || new.request_id == old.request_id
