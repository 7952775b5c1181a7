-- ===== src/Webhooks/Interrupted.antt =====
-- A payment whose first delivery broke off after its transaction was written, or that is sent
-- again under the same request id without being marked as processed.
use ldb_backend_hack.Base.{
  ◌≡◌, refl, sym, ap, ◌∙◌, subst, ◌==◌, string_eq, nat_eq, String, Bool, true, false, Option, none,
  some, List, [], ◌∷◌, any, inl, inr, arith, if◌then◌else◌,
}
use mathlib.Core.Bool.{false≢true}
use ldb_backend_hack.Json.{Json}
use ldb_backend_hack.Model.{
  World, Customer, DedicatedAccount, Transaction, active, account_status_eq, transaction_conflict,
}
use ldb_backend_hack.Action.{Action, Exception, Result, raised, ask}
use ldb_backend_hack.Action.Hoare.{Hoare, Hoare-bind, Hoare-always}
use ldb_backend_hack.Action.Reads.{Answers}
use ldb_backend_hack.Action.Steps.{Result-cases}
use ldb_backend_hack.Constants.{reconciliation_quarantine, suspense_closed_account}
use ldb_backend_hack.Orm.{Orm, IsLawful}
use ldb_backend_hack.Orm.Memory.{memory, lawful-eq-memory}
use ldb_backend_hack.Runtime.{Runtime}
use ldb_backend_hack.Tables.{create_transaction}
use ldb_backend_hack.Tables.Memory.{create_transaction_taken}
use ldb_backend_hack.Reconciliation.{
  Payment, quarantine_payment, credit_payment, route_payment, fetch_customer, process_payment,
}
use ldb_backend_hack.Reconciliation.Reading.{read_payment-Reads}
use ldb_backend_hack.Reconciliation.Search.{find_account-IsSearch}
use ldb_backend_hack.Reconciliation.Answers.{uuid4-Hoare, clock-Hoare, refused_ne_ok}
use ldb_backend_hack.Reconciliation.Books.{process_payment-Processes}
use ldb_backend_hack.Ledger.{Unchanged}
use ldb_backend_hack.Webhooks.Once.{IsEntered, Processes-of_entered}

-- The request id is taken in the table.
abbrev IsTaken : String → List Transaction → Type 0
IsTaken request_id ts = any (λ t. request_id == t.nomba_request_id) ts ≡ true

IsTaken-conflict :
    (t : Transaction) (rows : List Transaction)
    → IsTaken t.nomba_request_id rows
    → any (transaction_conflict t) rows ≡ true
IsTaken-conflict t [] h = absurd (false≢true h)
IsTaken-conflict t (r ∷ rows) h = ground (arith, IsTaken-conflict t rows)

create_transaction-stuck :
    (t : Transaction) (request_id : String)
    → t.nomba_request_id ≡ request_id
    → Hoare (λ w. IsTaken request_id w.transactions) (create_transaction memory t) (λ a w. ⊥)
create_transaction-stuck t request_id named = record {
  gives = λ w w' a h e. refused_ne_ok (
      sym (
        create_transaction_taken t w
          (IsTaken-conflict t w.transactions (subst (λ r. IsTaken r w.transactions) (sym named) h)))
      ∙ e);
}

Hoare-absurd : {A : Type 0} (m : Action A) → Hoare (λ w. ⊥) m (λ a w. ⊥)
Hoare-absurd m = record { gives = λ w w' a h e. h }

module _ (rt : Runtime) (p : Payment) where
  abbrev Taken : World → Type 0
  Taken w = IsTaken p.request_id w.transactions

  quarantine_payment-stuck :
      (reason decision : String) (account : Option DedicatedAccount)
      → Hoare Taken (quarantine_payment memory rt p reason decision account) (λ o w. ⊥)
  unfolding quarantine_payment
  quarantine_payment-stuck reason decision account =
      Hoare-bind _ _ (uuid4-Hoare rt (λ ts ss rs. IsTaken p.request_id ts)) (λ id.
        Hoare-bind _ _ (clock-Hoare rt (λ ts ss rs. IsTaken p.request_id ts)) (λ time.
          Hoare-bind _ _ (create_transaction-stuck _ p.request_id refl) (λ t. Hoare-absurd _)))

  credit_payment-stuck :
      (event_type : String) (account : DedicatedAccount) (customer : Customer)
      → Hoare Taken (credit_payment memory rt p event_type account customer) (λ o w. ⊥)
  unfolding credit_payment
  credit_payment-stuck event_type account customer =
      Hoare-bind _ _ (uuid4-Hoare rt (λ ts ss rs. IsTaken p.request_id ts)) (λ id.
        Hoare-bind _ _ (clock-Hoare rt (λ ts ss rs. IsTaken p.request_id ts)) (λ time.
          Hoare-bind _ _ (create_transaction-stuck _ p.request_id refl) (λ t. Hoare-absurd _)))

  route_payment-stuck :
      (event_type : String) (account : Option DedicatedAccount)
      → Hoare Taken (route_payment memory rt p event_type account) (λ o w. ⊥)
  unfolding route_payment fetch_customer ask
  route_payment-stuck event_type none = quarantine_payment-stuck _ _ none
  route_payment-stuck event_type (some a) =
      Hoare-bind _ _ (Hoare-always _ (λ w h. h))
        (λ customer. by_status customer (a.status == active))
    where
      by_status :
          (customer : Customer) (b : Bool)
          → Hoare Taken
              (if b
                then credit_payment memory rt p event_type a customer
                else quarantine_payment memory rt p suspense_closed_account
                    reconciliation_quarantine
                    (some a))
              (λ o w. ⊥)
      by_status customer true = credit_payment-stuck event_type a customer
      by_status customer false = quarantine_payment-stuck _ _ (some a)

process_payment-stuck :
    (rt : Runtime) (request_id event_type : String) (payload : Json)
    → Hoare
        (λ w. IsTaken request_id w.transactions)
        (process_payment memory rt request_id event_type payload)
        (λ o w. ⊥)
unfolding process_payment
process_payment-stuck rt request_id event_type payload =
    Hoare-bind {R = λ p w. IsTaken p.request_id w.transactions} _ _
      (record {
        gives = λ w w' p h e.
            let reads = (read_payment-Reads rt request_id payload).at w in
            let named =
              subst
                (Answers (λ (q : Payment). (q.request_id ≡ request_id) × (q.raw_payload ≡ payload)))
                (ap (λ (x : Result Payment × World). x.0) e) reads.1 in
            let same : w'.transactions ≡ w.transactions =
              ap (λ (x : Result Payment × World). x.1.transactions) (sym e)
              ∙ ap (λ (v : World). v.transactions) reads.0 in
            subst (λ r. IsTaken r w'.transactions) (sym named.0)
              (subst (IsTaken request_id) (sym same) h);
      })
      (λ p.
        Hoare-bind {R = λ a w. IsTaken p.request_id w.transactions} _ _
          (record {
            gives = λ w w' a h e.
                let search =
                  find_account-IsSearch rt p.alias_account_reference w p.alias_account_number in
                subst (λ v. IsTaken p.request_id v.transactions)
                  (sym search.0 ∙ ap (λ (x : Result (Option DedicatedAccount) × World). x.1) e) h;
          })
          (λ a. route_payment-stuck rt p event_type a))

process_payment_taken-memory :
    (rt : Runtime) (request_id event_type : String) (payload : Json) (w : World)
    → IsEntered request_id w
    → let (r, w') = process_payment memory rt request_id event_type payload w in
      ((e : Exception) × (r ≡ raised e)) × Unchanged w w'
process_payment_taken-memory rt request_id event_type payload w entered = (
  elim (Result-cases (process_payment memory rt request_id event_type payload w).0) [
    | inl (o, returned) ↦ absurd (
        (process_payment-stuck rt request_id event_type payload).gives w
          (process_payment memory rt request_id event_type payload w).1 o entered
          (ap (λ r. (r, (process_payment memory rt request_id event_type payload w).1)) returned))
    | inr failure ↦ failure
  ],
  Processes-of_entered rt request_id payload
      (process_payment-Processes rt request_id event_type payload w) entered,
)

-- Over any lawful ORM, once a transaction with the request id is in the ledger, processing a
-- payment of that request always ends in an exception and changes no customer, account or
-- transaction.
pub process_payment_taken :
    (orm : Orm) (laws : IsLawful orm) (rt : Runtime) (request_id event_type : String)
    (payload : Json) (w : World)
    → IsEntered request_id w
    → let (r, w') = process_payment orm rt request_id event_type payload w in
      ((e : Exception) × (r ≡ raised e)) × Unchanged w w'
process_payment_taken orm laws rt request_id event_type payload w entered =
    rw (lawful-eq-memory orm laws)
      (process_payment_taken-memory rt request_id event_type payload w entered)
