-- ===== src/Model/State.antt =====
-- The state that the services share: the seven tables of app/models/__init__.py, the outbound
-- webhook requests made so far, and how many times the clock and `uuid4` were read.
use ldb_backend_hack.Base.{ℕ, String, List}
use ldb_backend_hack.Model.Rows.{
  Customer, DedicatedAccount, Transaction, SuspenseLog, ReconciliationLog, WebhookRegistration,
  ProcessedWebhookEvent,
}

-- One `client.post` of app/services/webhook_forwarder.py: the url, the body and the signature.
pub record Delivery : Type 0 where
  pub url : String
  pub content : String
  pub signature : String

pub record World : Type 0 where
  pub customers : List Customer
  pub accounts : List DedicatedAccount
  pub transactions : List Transaction
  pub suspense_logs : List SuspenseLog
  pub reconciliation_logs : List ReconciliationLog
  pub registrations : List WebhookRegistration
  pub processed_events : List ProcessedWebhookEvent
  pub outbox : List Delivery
  pub ticks : ℕ
