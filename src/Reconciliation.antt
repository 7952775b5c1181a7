-- ===== src/Reconciliation.antt =====
-- app/services/reconciliation.py: what an inbound transfer does to the ledger.
mod Body
pub mod Reading
pub mod Entries
pub mod Search
pub mod Books
pub mod Answers
pub mod Keys
pub mod Recorded
unfoldable pub use Body.*
use ldb_backend_hack.Base.{
  pos, zero, ◌+ℤ◌, ◌==◌, nat_eq, string_eq, String, Bool, true, false, not, Option, none, some, ℕ,
  if◌then◌else◌,
}
use ldb_backend_hack.Json.{Json, null, number, text, object, end, field, truthy}
use ldb_backend_hack.Model.{
  World, Customer, DedicatedAccount, Transaction, SuspenseLog, ReconciliationLog, Decimal, Uuid,
  TransactionStatus, full, partial, overpayment, misdirected, inbound, active, account_status_eq,
}
use ldb_backend_hack.Action.{Action, Result, ok, raised, pure, lift, ask, ◌>>=◌, ◌>>◌}
use ldb_backend_hack.Constants.{
  reconciliation_credit_full, reconciliation_credit_partial, reconciliation_overpayment,
  reconciliation_quarantine, suspense_misdirected, suspense_closed_account,
}
use ldb_backend_hack.Orm.{Orm}
use ldb_backend_hack.Runtime.{Runtime, py_str, uuid4, clock}
use ldb_backend_hack.Tables.{
  create_transaction, create_suspense_log, create_reconciliation_log, save_customer,
}
use ldb_backend_hack.Helpers.{derive_transaction_status}
use ldb_backend_hack.Forwarder.{emit_payment_received}

-- The dict that `process_payment` returns.
pub record Outcome : Type 0 where
  pub transaction_id : Uuid
  pub status : TransactionStatus
  pub wallet_balance : Option Decimal
  pub quarantined : Bool

-- `_decision_for_status`
unfoldable pub decision_for_status : TransactionStatus → String
decision_for_status full = reconciliation_credit_full
decision_for_status partial = reconciliation_credit_partial
decision_for_status overpayment = reconciliation_overpayment
decision_for_status misdirected = reconciliation_quarantine

-- The arguments of the two calls of `Transaction.create`.
abbrev pub entry_of : Payment → Option Uuid → TransactionStatus → Uuid → ℕ → Transaction
entry_of p account_id status id time = record {
  id = id;
  dedicated_account_id = account_id;
  nomba_request_id = p.request_id;
  nomba_transaction_id = p.nomba_transaction_id;
  merchant_tx_ref = some p.merchant_tx_ref;
  amount = p.amount;
  fee = p.fee;
  sender_name = p.sender_name;
  sender_bank = p.sender_bank;
  type = inbound;
  status = status;
  narration = p.narration;
  raw_payload = p.raw_payload;
  created_at = time;
}

-- `dedicated_account=account`
abbrev pub id_of : Option DedicatedAccount → Option Uuid
id_of none = none
id_of (some a) = some a.id

module _ (orm : Orm) where
  -- `account.fetch_related("customer")`
  unfoldable pub fetch_customer : DedicatedAccount → Action Customer
  fetch_customer account =
      ask (λ w. orm.fetch_related Customer (λ c. c.id == account.customer_id) w.customers)

  -- `DedicatedAccount.get_or_none(account_number=...)`
  unfoldable pub get_by_number : String → Action (Option DedicatedAccount)
  get_by_number wanted =
      ask (λ w. orm.get_or_none DedicatedAccount (λ a. a.account_number == wanted) w.accounts)

  -- `DedicatedAccount.get_or_none(account_ref=...)`
  unfoldable pub get_by_ref : String → Action (Option DedicatedAccount)
  get_by_ref ref =
      ask (λ w. orm.get_or_none DedicatedAccount (λ a. a.account_ref == ref) w.accounts)

module _ (orm : Orm) (rt : Runtime) where
  -- The second half of `_find_account`.
  unfoldable pub find_by_ref : Json → Action (Option DedicatedAccount)
  find_by_ref ref = if truthy ref then get_by_ref orm (py_str rt ref) else pure none

  unfoldable pub after_number : Json → Option DedicatedAccount → Action (Option DedicatedAccount)
  after_number ref (some account) = pure (some account)
  after_number ref none = find_by_ref ref

  unfoldable pub find_account : String → Json → Action (Option DedicatedAccount)
  find_account account_number account_ref =
      if not (account_number == "")
      then get_by_number orm account_number >>= after_number account_ref
      else find_by_ref account_ref

  -- The two logs of `_quarantine_payment`, and its result.
  unfoldable pub log_quarantine : Payment → String → String → Transaction → Action Outcome
  log_quarantine p reason decision transaction = do
    suspense_id ← uuid4 rt
    t ← clock rt
    create_suspense_log orm (record {
      id = suspense_id;
      transaction_id = transaction.id;
      reason = reason;
      amount = p.amount;
      resolved = false;
      resolved_at = none;
      created_at = t;
    })
    log_id ← uuid4 rt
    t ← clock rt
    create_reconciliation_log orm (record {
      id = log_id;
      transaction_id = transaction.id;
      expected_amount = none;
      received_amount = p.amount;
      decision = decision;
      details = object (field "reason" (text reason) end);
      created_at = t;
    })
    pure (record {
      transaction_id = transaction.id;
      status = misdirected;
      wallet_balance = none;
      quarantined = true;
    })

  -- `_quarantine_payment`
  unfoldable pub quarantine_payment :
      Payment → String → String → Option DedicatedAccount → Action Outcome
  quarantine_payment p reason decision account = do
    transaction_id ← uuid4 rt
    t ← clock rt
    transaction ← create_transaction orm (entry_of p (id_of account) misdirected transaction_id t)
    log_quarantine p reason decision transaction

  -- The end of `process_payment`: the audit log, the merchant's webhooks, the result.
  unfoldable pub finish_credit :
      Payment → String → DedicatedAccount → Transaction → Customer → Action Outcome
  finish_credit p event_type account transaction customer = do
    log_id ← uuid4 rt
    t ← clock rt
    create_reconciliation_log orm (record {
      id = log_id;
      transaction_id = transaction.id;
      expected_amount = customer.target_amount;
      received_amount = p.amount;
      decision = decision_for_status transaction.status;
      details = object (
          field "event_type" (text event_type)
            (field "wallet_balance_after" (text (rt.show_decimal customer.wallet_balance)) end));
      created_at = t;
    })
    emit_payment_received orm rt customer.merchant_id customer account transaction
    pure (record {
      transaction_id = transaction.id;
      status = transaction.status;
      wallet_balance = some customer.wallet_balance;
      quarantined = false;
    })

  -- `customer.wallet_balance += amount` and `customer.save()`
  unfoldable pub credit_wallet : Decimal → Customer → Action Customer
  credit_wallet amount customer = do
    t ← clock rt
    save_customer orm
        (record customer { wallet_balance = customer.wallet_balance +ℤ amount; updated_at = t })

  -- The rest of `process_payment` once the account is known to be active. The status that was
  -- derived is that of the new transaction.
  unfoldable pub credit_payment : Payment → String → DedicatedAccount → Customer → Action Outcome
  credit_payment p event_type account customer = do
    let tx_status = derive_transaction_status p.amount customer.target_amount
    transaction_id ← uuid4 rt
    t ← clock rt
    transaction ← create_transaction orm (entry_of p (some account.id) tx_status transaction_id t)
    customer ← credit_wallet p.amount customer
    finish_credit p event_type account transaction customer

  -- The tests on the account, in the order of the source.
  unfoldable pub route_payment : Payment → String → Option DedicatedAccount → Action Outcome
  route_payment p event_type none =
      quarantine_payment p suspense_misdirected reconciliation_quarantine none
  route_payment p event_type (some account) = do
    customer ← fetch_customer orm account
    if account.status == active
        then credit_payment p event_type account customer
        else quarantine_payment p suspense_closed_account reconciliation_quarantine (some account)

  unfoldable pub process_payment : String → String → Json → Action Outcome
  process_payment request_id event_type raw_payload = do
    p ← read_payment rt request_id raw_payload
    account ← find_account p.alias_account_number p.alias_account_reference
    route_payment p event_type account
