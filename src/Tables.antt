-- ===== src/Tables.antt =====
-- The writes to the tables of app/models/, as actions: `Model.create(...)` and `row.save()`.
pub mod Memory
use ldb_backend_hack.Base.{◌==◌, nat_eq, List}
use ldb_backend_hack.Model.{
  World, Customer, DedicatedAccount, Transaction, SuspenseLog, ReconciliationLog,
  WebhookRegistration, ProcessedWebhookEvent, customer_conflict, account_conflict,
  transaction_conflict, suspense_conflict, reconciliation_conflict, registration_conflict,
  processed_conflict,
}
use ldb_backend_hack.Action.{Result, ok, raised, Action}
use ldb_backend_hack.Orm.{Orm}

-- Store the new table, or raise what the ORM raises.
abbrev store : {Row : Type 0} → Result (List Row) → Row → (List Row → World) → Action Row
store (ok rows) row put w = (ok row, put rows)
store (raised e) row put w = (raised e, w)

module _ (orm : Orm) where
  unfoldable pub create_customer : Customer → Action Customer
  create_customer c w =
      store (orm.create Customer customer_conflict c w.customers) c
        (λ rows. record w { customers = rows }) w

  unfoldable pub create_account : DedicatedAccount → Action DedicatedAccount
  create_account a w =
      store (orm.create DedicatedAccount account_conflict a w.accounts) a
        (λ rows. record w { accounts = rows }) w

  unfoldable pub create_transaction : Transaction → Action Transaction
  create_transaction t w =
      store (orm.create Transaction transaction_conflict t w.transactions) t
        (λ rows. record w { transactions = rows }) w

  unfoldable pub create_suspense_log : SuspenseLog → Action SuspenseLog
  create_suspense_log l w =
      store (orm.create SuspenseLog suspense_conflict l w.suspense_logs) l
        (λ rows. record w { suspense_logs = rows }) w

  unfoldable pub create_reconciliation_log : ReconciliationLog → Action ReconciliationLog
  create_reconciliation_log l w =
      store (orm.create ReconciliationLog reconciliation_conflict l w.reconciliation_logs) l
        (λ rows. record w { reconciliation_logs = rows }) w

  unfoldable pub create_registration : WebhookRegistration → Action WebhookRegistration
  create_registration r w =
      store (orm.create WebhookRegistration registration_conflict r w.registrations) r
        (λ rows. record w { registrations = rows }) w

  unfoldable pub create_processed : ProcessedWebhookEvent → Action ProcessedWebhookEvent
  create_processed e w =
      store (orm.create ProcessedWebhookEvent processed_conflict e w.processed_events) e
        (λ rows. record w { processed_events = rows }) w

  -- `customer.save()`: the row with its primary key is written anew.
  unfoldable pub save_customer : Customer → Action Customer
  save_customer c w =
      (ok c, record w { customers = orm.save Customer (λ r. r.id == c.id) c w.customers })

  unfoldable pub save_account : DedicatedAccount → Action DedicatedAccount
  save_account a w =
      (ok a, record w { accounts = orm.save DedicatedAccount (λ r. r.id == a.id) a w.accounts })

  -- `customer.delete()`. It is only called for a customer that has just been created, which owns
  -- no account yet, so the cascade to other tables meets no row.
  unfoldable pub delete_customer : Customer → Action (Unit {0})
  delete_customer c w =
      (ok tt, record w { customers = orm.delete Customer (λ r. r.id == c.id) w.customers })
