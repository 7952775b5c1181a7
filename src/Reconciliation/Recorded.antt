-- ===== src/Reconciliation/Recorded.antt =====
-- What `process_payment` has stored for its answer, from the body of the webhook on.
use ldb_backend_hack.Base.{
  ◌≡◌, refl, sym, subst, String, Bool, true, false, Option, none, some, List, [], ◌∷◌, Elem, inl,
  if◌then◌else◌, ◌==◌, arith,
}
use ldb_backend_hack.Json.{Json}
use ldb_backend_hack.Model.{
  World, Customer, DedicatedAccount, Transaction, SuspenseLog, ReconciliationLog,
  WebhookRegistration, Uuid, misdirected, active, account_status_eq,
}
use ldb_backend_hack.Action.{ok, pure, ask}
use ldb_backend_hack.Action.Hoare.{Hoare, Hoare-bind, Hoare-pure, Hoare-always}
use ldb_backend_hack.Constants.{reconciliation_quarantine, suspense_closed_account}
use ldb_backend_hack.Orm.{Orm, IsLawful}
use ldb_backend_hack.Orm.Memory.{memory, lawful-eq-memory}
use ldb_backend_hack.Runtime.{Runtime}
use ldb_backend_hack.Tables.{save_customer}
use ldb_backend_hack.Forwarder.{
  deliver, deliver_all, deliver_payment, subscribed, payment_payload, registrations_of,
  emit_payment_received,
}
use ldb_backend_hack.Reconciliation.{
  Payment, Outcome, quarantine_payment, finish_credit, credit_wallet, credit_payment, route_payment,
  process_payment,
}
use ldb_backend_hack.Reconciliation.Keys.{IsRead, read_payment-IsRead}
use ldb_backend_hack.Reconciliation.Answers.{
  create_transaction-Hoare, create_reconciliation_log-Hoare, uuid4-Hoare, clock-Hoare,
  log_quarantine-Hoare, IsRecorded, IsEntry, Of,
}

deliver-tables :
    (rt : Runtime) (body : String) (r : WebhookRegistration) (w : World)
    → let w' = (deliver rt body r w).1 in
      (w'.transactions ≡ w.transactions)
      × (w'.suspense_logs ≡ w.suspense_logs)
      × (w'.reconciliation_logs ≡ w.reconciliation_logs)
unfolding deliver
deliver-tables rt body r w = (ground arith, ground arith, ground arith)

module _ (rt : Runtime)
    (P : List Transaction → List SuspenseLog → List ReconciliationLog → Type 0) where
  deliver_keeps :
      (body : String) (r : WebhookRegistration) (w : World) → Of P w → Of P (deliver rt body r w).1
  deliver_keeps body r w h = let same = deliver-tables rt body r w in rw (same.0, same.1, same.2) h

  deliver_all-Hoare :
      (body : String) (rs : List WebhookRegistration)
      → Hoare (Of P) (deliver_all rt body rs) (λ _. Of P)
  unfolding deliver_all
  deliver_all-Hoare body [] = Hoare-pure tt (λ _. Of P) (λ w h. h)
  deliver_all-Hoare body (r ∷ rs) =
      Hoare-bind _ _ (one (subscribed r)) (λ _. deliver_all-Hoare body rs)
    where
      one : (b : Bool) → Hoare (Of P) (if b then deliver rt body r else pure tt) (λ _. Of P)
      one true = Hoare-always _ (deliver_keeps body r)
      one false = Hoare-pure tt (λ _. Of P) (λ w h. h)

  emit_payment_received-Hoare :
      (m : Uuid) (c : Customer) (a : DedicatedAccount) (t : Transaction)
      → Hoare (Of P) (emit_payment_received memory rt m c a t) (λ _. Of P)
  unfolding emit_payment_received registrations_of ask deliver_payment
  emit_payment_received-Hoare m c a t = Hoare-bind _ _ (Hoare-always _ (λ w h. h)) go
    where
      go :
          (rs : List WebhookRegistration)
          → Hoare (Of P) (deliver_payment rt (payment_payload rt c a t) rs) (λ _. Of P)
      go [] = Hoare-pure tt (λ _. Of P) (λ w h. h)
      go (r ∷ rs) = deliver_all-Hoare _ (r ∷ rs)

module _ (rt : Runtime) (p : Payment) where
  quarantine_payment-Hoare :
      (reason : String) (account : Option DedicatedAccount)
      → Hoare
          (λ w. Unit {0})
          (quarantine_payment memory rt p reason reconciliation_quarantine account)
          (IsRecorded p)
  unfolding quarantine_payment
  quarantine_payment-Hoare reason account =
      Hoare-bind _ _ (uuid4-Hoare rt (λ ts ss rs. Unit {0})) (λ id.
        Hoare-bind _ _ (clock-Hoare rt (λ ts ss rs. Unit {0})) (λ time.
          Hoare-bind _ _ (create_transaction-Hoare _) (λ t. record {
            gives = λ w w' o h e.
                (log_quarantine-Hoare rt p reason t
                    (subst (IsEntry p misdirected) (sym h.0) (refl, refl, refl))).gives
                  w w' o (subst (λ u. Elem u w.transactions) (sym h.0) h.1) e;
          })))

  finish_credit-Hoare :
      (event_type : String) (account : DedicatedAccount) (t : Transaction) (customer : Customer)
      → IsEntry p t.status t
      → Hoare
          (λ w. Elem t w.transactions)
          (finish_credit memory rt p event_type account t customer)
          (IsRecorded p)
  unfolding finish_credit
  finish_credit-Hoare event_type account t customer (request, amount, status) =
      Hoare-bind _ _ (uuid4-Hoare rt (λ ts ss rs. Elem t ts)) (λ id.
        Hoare-bind _ _ (clock-Hoare rt (λ ts ss rs. Elem t ts)) (λ time.
          Hoare-bind _ _ (create_reconciliation_log-Hoare (λ ts ss. Elem t ts) _) (λ g.
            Hoare-bind _ _
              (emit_payment_received-Hoare rt (λ ts ss rs. Elem t ts × Elem _ rs) _ customer account
                t)
              (λ _. Hoare-pure _ (IsRecorded p) (λ w h. record {
                entry = t;
                log = _;
                entry_stored = h.0;
                log_stored = h.1;
                entry_id = refl;
                request = request;
                amount = amount;
                status = refl;
                log_of = refl;
                received = refl;
                decision = refl;
                suspense = inl refl;
              })))))

  credit_payment-Hoare :
      (event_type : String) (account : DedicatedAccount) (customer : Customer)
      → Hoare
          (λ w. Unit {0})
          (credit_payment memory rt p event_type account customer)
          (IsRecorded p)
  unfolding credit_payment credit_wallet save_customer
  credit_payment-Hoare event_type account customer =
      Hoare-bind _ _ (uuid4-Hoare rt (λ ts ss rs. Unit {0})) (λ id.
        Hoare-bind _ _ (clock-Hoare rt (λ ts ss rs. Unit {0})) (λ time.
          Hoare-bind _ _ (create_transaction-Hoare _) (λ t. record {
            gives = λ w w' o h e.
                (Hoare-bind (credit_wallet memory rt p.amount customer)
                    (finish_credit memory rt p event_type account t)
                    (Hoare-bind _ _ (clock-Hoare rt (λ ts ss rs. Elem t ts))
                      (λ time'. Hoare-always _ (λ v k. k)))
                    (λ paid.
                      finish_credit-Hoare event_type account t paid
                        (subst (λ u. IsEntry p u.status u) (sym h.0) (refl, refl, refl)))).gives
                  w w' o (subst (λ u. Elem u w.transactions) (sym h.0) h.1) e;
          })))

  route_payment-Hoare :
      (event_type : String) (account : Option DedicatedAccount)
      → Hoare (λ w. Unit {0}) (route_payment memory rt p event_type account) (IsRecorded p)
  unfolding route_payment
  route_payment-Hoare event_type none = quarantine_payment-Hoare _ none
  route_payment-Hoare event_type (some a) =
      Hoare-bind _ _ (Hoare-always _ (λ w h. h))
        (λ customer. by_status customer (a.status == active))
    where
      by_status :
          (customer : Customer) (b : Bool)
          → Hoare
              (λ w. Unit {0})
              (if b
                then credit_payment memory rt p event_type a customer
                else quarantine_payment memory rt p suspense_closed_account
                    reconciliation_quarantine
                    (some a))
              (IsRecorded p)
      by_status customer true = credit_payment-Hoare event_type a customer
      by_status customer false = quarantine_payment-Hoare _ (some a)

-- The payment is the one in the body, and what is stored for the answer is stored.
abbrev pub IsAnswered : Runtime → String → Json → Outcome → World → Type 0
IsAnswered rt request_id payload o w =
    (p : Payment) × IsRead rt request_id payload p × IsRecorded p o w

process_payment-Hoare :
    (rt : Runtime) (request_id event_type : String) (payload : Json)
    → Hoare
        (λ w. Unit {0})
        (process_payment memory rt request_id event_type payload)
        (IsAnswered rt request_id payload)
unfolding process_payment
process_payment-Hoare rt request_id event_type payload =
    Hoare-bind _ _ (read_payment-IsRead rt request_id payload) (λ p. record {
      gives = λ w w' o read e. (
        p,
        read,
        (Hoare-bind {P = λ v. Unit {0}} _ _ (Hoare-always _ (λ v k. k))
              (λ account. route_payment-Hoare rt p event_type account)).gives
            w w' o tt e,
      );
    })

-- Over any lawful ORM, a call of `process_payment` that returns has entered the payment in the body:
-- the transaction that the answer names is stored with the request id, the decimal number under
-- `data.transaction.transactionAmount` of the body as its amount (0 where there is none), and the
-- status of the answer; an audit log of that amount is stored for it with the decision for that
-- status, and if the answer says quarantined, an open suspense log of the amount is stored too.
pub process_payment-IsAnswered :
    (orm : Orm) (laws : IsLawful orm) (rt : Runtime) (request_id event_type : String)
    (payload : Json) (w w' : World) (o : Outcome)
    → process_payment orm rt request_id event_type payload w ≡ (ok o, w')
    → IsAnswered rt request_id payload o w'
process_payment-IsAnswered orm laws rt request_id event_type payload w w' o h =
    (process_payment-Hoare rt request_id event_type payload).gives w w' o tt
      (rw (lawful-eq-memory orm laws) at h)
