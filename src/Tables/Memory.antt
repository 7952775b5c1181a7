-- ===== src/Tables/Memory.antt =====
-- `Model.create(...)` over tables in memory: a row that meets no other is added at the end, and
-- any other is refused, with nothing changed.
use ldb_backend_hack.Base.{◌≡◌, true, false, [], ◌∷◌, ◌++◌, any}
use ldb_backend_hack.Model.{
  DedicatedAccount, account_conflict, SuspenseLog, ReconciliationLog, suspense_conflict,
  reconciliation_conflict, Customer, customer_conflict, World, Transaction, ProcessedWebhookEvent,
  transaction_conflict, processed_conflict,
}
use ldb_backend_hack.Action.{ok, raised, integrity_error}
use ldb_backend_hack.Orm.Memory.{memory}
use ldb_backend_hack.Tables.{
  create_account, create_suspense_log, create_reconciliation_log, create_customer,
  create_transaction, create_processed,
}

pub create_transaction_new :
    (t : Transaction) (w : World)
    → any (transaction_conflict t) w.transactions ≡ false
    → create_transaction memory t w ≡ (ok t, record w { transactions = w.transactions ++ t ∷ [] })
unfolding create_transaction
create_transaction_new t w h = rw h

pub create_transaction_taken :
    (t : Transaction) (w : World)
    → any (transaction_conflict t) w.transactions ≡ true
    → create_transaction memory t w ≡ (raised integrity_error, w)
unfolding create_transaction
create_transaction_taken t w h = rw h

pub create_processed_new :
    (e : ProcessedWebhookEvent) (w : World)
    → any (processed_conflict e) w.processed_events ≡ false
    → create_processed memory e w
      ≡ (ok e, record w { processed_events = w.processed_events ++ e ∷ [] })
unfolding create_processed
create_processed_new e w h = rw h

pub create_processed_taken :
    (e : ProcessedWebhookEvent) (w : World)
    → any (processed_conflict e) w.processed_events ≡ true
    → create_processed memory e w ≡ (raised integrity_error, w)
unfolding create_processed
create_processed_taken e w h = rw h

pub create_customer_new :
    (c : Customer) (w : World)
    → any (customer_conflict c) w.customers ≡ false
    → create_customer memory c w ≡ (ok c, record w { customers = w.customers ++ c ∷ [] })
unfolding create_customer
create_customer_new c w h = rw h

pub create_customer_taken :
    (c : Customer) (w : World)
    → any (customer_conflict c) w.customers ≡ true
    → create_customer memory c w ≡ (raised integrity_error, w)
unfolding create_customer
create_customer_taken c w h = rw h

pub create_suspense_log_new :
    (l : SuspenseLog) (w : World)
    → any (suspense_conflict l) w.suspense_logs ≡ false
    → create_suspense_log memory l w
      ≡ (ok l, record w { suspense_logs = w.suspense_logs ++ l ∷ [] })
unfolding create_suspense_log
create_suspense_log_new l w h = rw h

pub create_suspense_log_taken :
    (l : SuspenseLog) (w : World)
    → any (suspense_conflict l) w.suspense_logs ≡ true
    → create_suspense_log memory l w ≡ (raised integrity_error, w)
unfolding create_suspense_log
create_suspense_log_taken l w h = rw h

pub create_reconciliation_log_new :
    (l : ReconciliationLog) (w : World)
    → any (reconciliation_conflict l) w.reconciliation_logs ≡ false
    → create_reconciliation_log memory l w
      ≡ (ok l, record w { reconciliation_logs = w.reconciliation_logs ++ l ∷ [] })
unfolding create_reconciliation_log
create_reconciliation_log_new l w h = rw h

pub create_reconciliation_log_taken :
    (l : ReconciliationLog) (w : World)
    → any (reconciliation_conflict l) w.reconciliation_logs ≡ true
    → create_reconciliation_log memory l w ≡ (raised integrity_error, w)
unfolding create_reconciliation_log
create_reconciliation_log_taken l w h = rw h

pub create_account_new :
    (a : DedicatedAccount) (w : World)
    → any (account_conflict a) w.accounts ≡ false
    → create_account memory a w ≡ (ok a, record w { accounts = w.accounts ++ a ∷ [] })
unfolding create_account
create_account_new a w h = rw h

pub create_account_taken :
    (a : DedicatedAccount) (w : World)
    → any (account_conflict a) w.accounts ≡ true
    → create_account memory a w ≡ (raised integrity_error, w)
unfolding create_account
create_account_taken a w h = rw h
