-- ===== src/Tests.antt =====
-- A merchant with one customer, one account and one registered webhook, and a transfer to it.
pub mod Payments
pub mod Requests
pub mod Webhooks
pub mod Services
pub mod Creation
pub mod Jobs
pub mod Backend
pub mod Tokens
pub mod Profiles
use ldb_backend_hack.Base.{
  ℕ, ◌+◌, ◌^◌, ◌≡◌, refl, sym, ap, subst, pos, ◌≤ℤ◌, ◌<ℤ◌, arith, String, Bool, true, false, Option,
  none, some, List, [], ◌∷◌, ◌++◌, map, select, inl, inr, ◌⊎◌, Elem, ◌==◌, string_eq,
}
use ldb_backend_hack.Json.{Json, Fields, null, text, number, object, end, field}
use ldb_backend_hack.Model.{
  World, Customer, DedicatedAccount, Transaction, WebhookRegistration, Delivery, Decimal, active,
  partial, inbound,
}
use ldb_backend_hack.Action.{Result, ok, raised}
use ldb_backend_hack.Hooks.{Gate}
use ldb_backend_hack.Runtime.{Runtime, Posted, delivered, http_error}

abbrev pub sample_runtime : Runtime
sample_runtime = record {
  uuid = λ n. 2 ^ 127 + n;
  now = λ n. 1000 + n;
  rounds = 3;
  decimal_of_text = λ s. none;
  show_decimal = λ d. "amount";
  repr = λ j. "json";
  isoformat = λ t. "time";
  float = λ d. d;
  percentage = λ a b. pos 0;
  dumps = λ j. "body";
  hmac_hex = λ secret body. "signature";
  post = λ n d. if_delivered n;
}
  where
    if_delivered : ℕ → Posted
    if_delivered n = delivered 200

abbrev pub sample_customer : Customer
sample_customer = record {
  id = 1;
  merchant_id = 7;
  merchant_customer_id = "C-1";
  name = "Ada";
  email = none;
  phone = none;
  target_amount = some (pos 5000);
  wallet_balance = pos 0;
  metadata = null;
  created_at = 0;
  updated_at = 0;
}

abbrev pub sample_account : DedicatedAccount
sample_account = record {
  id = 2;
  customer_id = 1;
  nomba_va_id = none;
  account_number = "9000000001";
  account_name = "Ada";
  account_ref = "C-1";
  status = active;
  created_at = 0;
  updated_at = 0;
}

abbrev pub sample_registration : WebhookRegistration
sample_registration = record {
  id = 3;
  merchant_id = 7;
  url = "https://merchant.example";
  secret = "secret";
  events = "customer.payment_received" ∷ [];
  active = true;
  created_at = 0;
}

abbrev pub sample_world : World
sample_world = record {
  customers = sample_customer ∷ [];
  accounts = sample_account ∷ [];
  transactions = [];
  suspense_logs = [];
  reconciliation_logs = [];
  registrations = sample_registration ∷ [];
  processed_events = [];
  outbox = [];
  ticks = 0;
}

abbrev pub transfer_of : String → Fields
transfer_of request_id = field "event_type" (text "payment_success") (
    field "requestId" (text request_id) (
      field "data"
        (object (
          field "transaction"
            (object (
              field "aliasAccountNumber" (text "9000000001") (
                field "transactionAmount" (number (pos 2500)) (
                  field "type" (text "vact_transfer")
                    (field "merchantTxRef" (text request_id) end)))))
            end))
        end))

abbrev pub sample_payload : Json
sample_payload = object (transfer_of "R-1")

abbrev pub half_paid : Customer
half_paid = record sample_customer { wallet_balance = pos 2500 }

abbrev pub paid : Transaction
paid = record {
  id = 9;
  dedicated_account_id = some 2;
  nomba_request_id = "R-1";
  nomba_transaction_id = none;
  merchant_tx_ref = none;
  amount = pos 2500;
  fee = pos 0;
  sender_name = none;
  sender_bank = none;
  type = inbound;
  status = partial;
  narration = none;
  raw_payload = null;
  created_at = 5;
}

abbrev pub paid_world : World
paid_world = record sample_world { customers = half_paid ∷ []; transactions = paid ∷ [] }

abbrev pub sample_gate : Gate
sample_gate = record {
  secret = "key";
  digest = λ secret body. "digest";
  compare_digest = λ a b. ok (a == b);
  loads = λ body. ok sample_payload;
}
