-- ===== src/Reconciliation/Entries.antt =====
-- What `_quarantine_payment` and the crediting half of `process_payment` do to the ledger.
use ldb_backend_hack.Base.{
  ◌≡◌, refl, sym, subst, nat_eq, string_eq, String, false, Option, some, List, [], ◌∷◌, any, ◌+ℤ◌,
  ◌+◌, Elem, Bool-cases, inl, inr, arith,
}
use ldb_backend_hack.Model.{
  World, Customer, DedicatedAccount, Transaction, misdirected, active, SuspenseLog,
  ReconciliationLog, transaction_conflict, account_status_eq,
}
use ldb_backend_hack.Action.{Action, ◌>>=◌}
use ldb_backend_hack.Action.Steps.{bind_ok, bind_raised}
use ldb_backend_hack.Orm.Memory.{memory}
use ldb_backend_hack.Runtime.{Runtime, uuid4, clock}
use ldb_backend_hack.Tables.{
  create_transaction, create_suspense_log, create_reconciliation_log, save_customer,
}
use ldb_backend_hack.Tables.Memory.{create_transaction_new, create_transaction_taken}
use ldb_backend_hack.Helpers.{derive_transaction_status}
use ldb_backend_hack.Forwarder.Frame.{emit_payment_received-KeepsLedger}
use ldb_backend_hack.Reconciliation.{
  Payment, Outcome, entry_of, id_of, log_quarantine, quarantine_payment, finish_credit,
  credit_wallet, credit_payment,
}
use ldb_backend_hack.Ledger.{Books, unchanged, credits, parks, IsFresh, IsKnown}
use ldb_backend_hack.Ledger.Keeps.{KeepsLedger, KeepsLedger-pure, KeepsLedger-bind, Unchanged-refl}

module _ (rt : Runtime) where
  pub uuid4-KeepsLedger : KeepsLedger (uuid4 rt)
  unfolding uuid4
  uuid4-KeepsLedger = record {
    at = λ w. record { customers = refl; accounts = refl; transactions = refl };
  }

  pub clock-KeepsLedger : KeepsLedger (clock rt)
  unfolding clock
  clock-KeepsLedger = record { at = Unchanged-refl }

  create_suspense_log-KeepsLedger : (l : SuspenseLog) → KeepsLedger (create_suspense_log memory l)
  unfolding create_suspense_log
  create_suspense_log-KeepsLedger l = record { at = λ w. ground arith }

  create_reconciliation_log-KeepsLedger :
      (l : ReconciliationLog) → KeepsLedger (create_reconciliation_log memory l)
  unfolding create_reconciliation_log
  create_reconciliation_log-KeepsLedger l = record { at = λ w. ground arith }

  ruleset steps = (
    KeepsLedger-pure, KeepsLedger-bind, uuid4-KeepsLedger, clock-KeepsLedger,
    create_suspense_log-KeepsLedger, create_reconciliation_log-KeepsLedger,
    emit_payment_received-KeepsLedger,
  )

  log_quarantine-KeepsLedger :
      (p : Payment) (reason decision : String) (t : Transaction)
      → KeepsLedger (log_quarantine memory rt p reason decision t)
  unfolding log_quarantine
  log_quarantine-KeepsLedger p reason decision t = search steps depth 12

  finish_credit-KeepsLedger :
      (p : Payment) (event_type : String) (a : DedicatedAccount) (t : Transaction) (c : Customer)
      → KeepsLedger (finish_credit memory rt p event_type a t c)
  unfolding finish_credit
  finish_credit-KeepsLedger p event_type a t c = search steps depth 12

-- A row that passes the constraint test of a table has a request id that is new to it.
IsFresh-of_no_conflict :
    (t : Transaction) (rows : List Transaction)
    → any (transaction_conflict t) rows ≡ false
    → IsFresh t.nomba_request_id rows
IsFresh-of_no_conflict t [] h = refl
IsFresh-of_no_conflict t (r ∷ rows) h = ground (arith, IsFresh-of_no_conflict t rows)

module _ (rt : Runtime) (p : Payment) where
  pub quarantine_payment-Books :
      (reason decision : String) (account : Option DedicatedAccount) (w : World)
      → IsKnown w.accounts (id_of account)
      → Books p w (quarantine_payment memory rt p reason decision account w).1
  unfolding quarantine_payment uuid4 clock ◌>>=◌
  quarantine_payment-Books reason decision account w known =
      let drawn = record w { ticks = w.ticks + 1 } in
      let entry = entry_of p (id_of account) misdirected (rt.uuid w.ticks) (rt.now (w.ticks + 1)) in
      let create = create_transaction memory entry in
      let rest = log_quarantine memory rt p reason decision in
      elim (Bool-cases (any (transaction_conflict entry) w.transactions)) [
        | inl taken ↦
            subst (λ x. Books p w x.1)
              (sym (bind_raised create rest (create_transaction_taken entry drawn taken)))
              (unchanged (record { customers = refl; accounts = refl; transactions = refl }))
        | inr free ↦
            let kept = (log_quarantine-KeepsLedger rt p reason decision entry).at _ in
            subst (λ x. Books p w x.1)
              (sym (bind_ok create rest (create_transaction_new entry drawn free)))
              (parks (record {
                entry = entry;
                is_fresh = IsFresh-of_no_conflict entry w.transactions free;
                request = refl;
                amount = refl;
                booked_to = known;
                status = refl;
                transactions = kept.transactions;
                accounts = kept.accounts;
                customers = kept.customers;
              }))
      ]

  pub credit_payment-Books :
      (event_type : String) (account : DedicatedAccount) (customer : Customer) (w : World)
      → Elem account w.accounts
      → Elem customer w.customers
      → customer.id ≡ account.customer_id
      → account.status ≡ active
      → Books p w (credit_payment memory rt p event_type account customer w).1
  unfolding credit_payment credit_wallet save_customer uuid4 clock ◌>>=◌
  credit_payment-Books event_type account customer w known payer owner is_active =
      let drawn = record w { ticks = w.ticks + 1 } in
      let time = rt.now (w.ticks + 1) in
      let status = derive_transaction_status p.amount customer.target_amount in
      let entry = entry_of p (some account.id) status (rt.uuid w.ticks) time in
      let paid = record customer {
        wallet_balance = customer.wallet_balance +ℤ p.amount;
        updated_at = time;
      } in
      let create = create_transaction memory entry in
      let rest : Transaction → Action Outcome = λ t.
        credit_wallet memory rt p.amount customer
        >>= finish_credit memory rt p event_type account t in
      elim (Bool-cases (any (transaction_conflict entry) w.transactions)) [
        | inl taken ↦
            subst (λ x. Books p w x.1)
              (sym (bind_raised create rest (create_transaction_taken entry drawn taken)))
              (unchanged (record { customers = refl; accounts = refl; transactions = refl }))
        | inr free ↦
            let kept = (finish_credit-KeepsLedger rt p event_type account entry paid).at _ in
            subst (λ x. Books p w x.1)
              (sym (bind_ok create rest (create_transaction_new entry drawn free)))
              (credits (record {
                account = account;
                customer = customer;
                entry = entry;
                time = time;
                account_known = known;
                customer_known = payer;
                owner = owner;
                is_active = is_active;
                is_fresh = IsFresh-of_no_conflict entry w.transactions free;
                request = refl;
                amount = refl;
                booked_to = refl;
                status = refl;
                transactions = kept.transactions;
                accounts = kept.accounts;
                customers = kept.customers;
              }))
      ]
