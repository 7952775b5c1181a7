-- ===== src/Reconciliation/Answers.antt =====
-- What a call of `process_payment` that returns has stored for its answer.
use ldb_backend_hack.Base.{
  ◌≡◌, refl, sym, ap, ◌∙◌, subst, String, false, none, List, [], ◌∷◌, ◌++◌, any, Elem, inl, inr,
  Bool-cases, ◌⊎◌,
}
use ldb_backend_hack.Model.{
  World, Transaction, SuspenseLog, ReconciliationLog, TransactionStatus, misdirected,
  transaction_conflict, suspense_conflict, reconciliation_conflict, account_status_eq,
}
use ldb_backend_hack.Action.{Result, ok, raised, integrity_error}
use ldb_backend_hack.Action.Hoare.{Hoare, Hoare-bind, Hoare-pure, Hoare-always}
use ldb_backend_hack.Action.Steps.{ok_injective, raised_ne_ok}
use ldb_backend_hack.Constants.{reconciliation_quarantine}
use ldb_backend_hack.Orm.Memory.{memory}
use ldb_backend_hack.Runtime.{Runtime, uuid4, clock}
use ldb_backend_hack.Tables.{create_transaction, create_suspense_log, create_reconciliation_log}
use ldb_backend_hack.Tables.Memory.{
  create_transaction_new, create_transaction_taken, create_suspense_log_new,
  create_suspense_log_taken, create_reconciliation_log_new, create_reconciliation_log_taken,
}
use ldb_backend_hack.Reconciliation.{Payment, Outcome, log_quarantine, decision_for_status}

pub last_Elem : {A : Type 0} (xs : List A) (x : A) → Elem x (xs ++ x ∷ [])
last_Elem [] x = inl refl
last_Elem (y ∷ ys) x = inr (last_Elem ys x)

pub stored_ok :
    {A : Type 0} {a b : A} {v w : World} (Q : World → Type 0)
    → ◌≡◌ {A = Result A × World} (ok b, v) (ok a, w)
    → Q v
    → (a ≡ b) × Q w
stored_ok {A} Q e h = (
  sym (ok_injective (ap (λ (x : Result A × World). x.0) e)),
  subst Q (ap (λ (x : Result A × World). x.1) e) h,
)

pub refused_ne_ok :
    {A C : Type 0} {a : A} {v w : World}
    → ◌≡◌ {A = Result A × World} (raised integrity_error, v) (ok a, w)
    → C
refused_ne_ok {A} {C} {a} e =
    absurd (raised_ne_ok integrity_error a (ap (λ (x : Result A × World). x.0) e))

pub create_transaction-Hoare :
    (t : Transaction)
    → Hoare (λ w. Unit {0}) (create_transaction memory t) (λ a w. (a ≡ t) × Elem t w.transactions)
create_transaction-Hoare t = record {
  gives = λ w w' a h e. elim (Bool-cases (any (transaction_conflict t) w.transactions)) [
    | inl taken ↦ refused_ne_ok (sym (create_transaction_taken t w taken) ∙ e)
    | inr free ↦
        stored_ok (λ v. Elem t v.transactions) (sym (create_transaction_new t w free) ∙ e)
          (last_Elem w.transactions t)
  ];
}

create_suspense_log-Hoare :
    (P : List Transaction → Type 0) (l : SuspenseLog)
    → Hoare
        (λ w. P w.transactions)
        (create_suspense_log memory l)
        (λ a w. P w.transactions × Elem l w.suspense_logs)
create_suspense_log-Hoare P l = record {
  gives = λ w w' a h e. elim (Bool-cases (any (suspense_conflict l) w.suspense_logs)) [
    | inl taken ↦ refused_ne_ok (sym (create_suspense_log_taken l w taken) ∙ e)
    | inr free ↦
        (stored_ok (λ v. P v.transactions × Elem l v.suspense_logs)
          (sym (create_suspense_log_new l w free) ∙ e) (h, last_Elem w.suspense_logs l)).1
  ];
}

pub create_reconciliation_log-Hoare :
    (P : List Transaction → List SuspenseLog → Type 0) (l : ReconciliationLog)
    → Hoare
        (λ w. P w.transactions w.suspense_logs)
        (create_reconciliation_log memory l)
        (λ a w. P w.transactions w.suspense_logs × Elem l w.reconciliation_logs)
create_reconciliation_log-Hoare P l = record {
  gives = λ w w' a h e. elim (Bool-cases (any (reconciliation_conflict l) w.reconciliation_logs)) [
    | inl taken ↦ refused_ne_ok (sym (create_reconciliation_log_taken l w taken) ∙ e)
    | inr free ↦
        (stored_ok (λ v. P v.transactions v.suspense_logs × Elem l v.reconciliation_logs)
          (sym (create_reconciliation_log_new l w free) ∙ e)
          (h, last_Elem w.reconciliation_logs l)).1
  ];
}

-- A predicate on the three tables that a payment is entered in.
abbrev pub Of :
    (List Transaction → List SuspenseLog → List ReconciliationLog → Type 0) → World → Type 0
Of P w = P w.transactions w.suspense_logs w.reconciliation_logs

module _ (rt : Runtime)
    (P : List Transaction → List SuspenseLog → List ReconciliationLog → Type 0) where
  pub uuid4-Hoare : Hoare (Of P) (uuid4 rt) (λ id. Of P)
  unfolding uuid4
  uuid4-Hoare = Hoare-always _ (λ w h. h)

  pub clock-Hoare : Hoare (Of P) (clock rt) (λ t. Of P)
  unfolding clock
  clock-Hoare = Hoare-always _ (λ w h. h)

-- What is stored for the answer `o` to the payment `p`: the transaction that it names, the audit
-- log with the decision for its status, and for a quarantined payment the suspense log.
pub record IsRecorded (p : Payment) (o : Outcome) (w : World) : Type 0 where
  pub entry : Transaction
  pub log : ReconciliationLog
  pub entry_stored : Elem entry w.transactions
  pub log_stored : Elem log w.reconciliation_logs
  pub entry_id : entry.id ≡ o.transaction_id
  pub request : entry.nomba_request_id ≡ p.request_id
  pub amount : entry.amount ≡ p.amount
  pub status : entry.status ≡ o.status
  pub log_of : log.transaction_id ≡ o.transaction_id
  pub received : log.received_amount ≡ p.amount
  pub decision : log.decision ≡ decision_for_status o.status
  pub suspense :
      (o.quarantined ≡ false)
      ⊎ ((l : SuspenseLog) × Elem l w.suspense_logs
          × (l.transaction_id ≡ o.transaction_id)
          × (l.amount ≡ p.amount)
          × (l.resolved ≡ false))

-- The entry of a payment with the status.
abbrev pub IsEntry : Payment → TransactionStatus → Transaction → Type 0
IsEntry p s t = (t.nomba_request_id ≡ p.request_id) × (t.amount ≡ p.amount) × (t.status ≡ s)

module _ (rt : Runtime) (p : Payment) where
  pub log_quarantine-Hoare :
      (reason : String) (t : Transaction)
      → IsEntry p misdirected t
      → Hoare
          (λ w. Elem t w.transactions)
          (log_quarantine memory rt p reason reconciliation_quarantine t)
          (IsRecorded p)
  unfolding log_quarantine decision_for_status
  log_quarantine-Hoare reason t (request, amount, status) =
      let stored : List Transaction → Type 0 = λ ts. Elem t ts in
      Hoare-bind _ _ (uuid4-Hoare rt (λ ts ss rs. stored ts)) (λ suspense_id.
        Hoare-bind _ _ (clock-Hoare rt (λ ts ss rs. stored ts)) (λ time.
          let l : SuspenseLog = record {
            id = suspense_id;
            transaction_id = t.id;
            reason = reason;
            amount = p.amount;
            resolved = false;
            resolved_at = none;
            created_at = time;
          } in
          Hoare-bind _ _ (create_suspense_log-Hoare stored l) (λ _.
            Hoare-bind _ _ (uuid4-Hoare rt (λ ts ss rs. stored ts × Elem l ss)) (λ log_id.
              Hoare-bind _ _ (clock-Hoare rt (λ ts ss rs. stored ts × Elem l ss)) (λ time'.
                Hoare-bind _ _ (create_reconciliation_log-Hoare (λ ts ss. stored ts × Elem l ss) _)
                  (λ g. Hoare-pure _ (IsRecorded p) (λ w h. record {
                    entry = t;
                    log = _;
                    entry_stored = h.0.0;
                    log_stored = h.1;
                    entry_id = refl;
                    request = request;
                    amount = amount;
                    status = status;
                    log_of = refl;
                    received = refl;
                    decision = refl;
                    suspense = inr (l, h.0.1, refl, refl, refl);
                  })))))))
