-- ===== src/Webhooks/Kept.antt =====
-- Deliveries of webhooks keep the processed events.
use ldb_backend_hack.Base.{◌==◌, nat_eq, string_eq, String, not, Option, none, some, List, [], ◌∷◌}
use ldb_backend_hack.Json.{Json}
use ldb_backend_hack.Model.{
  Customer, DedicatedAccount, Transaction, WebhookRegistration, Uuid, account_status_eq,
}
use ldb_backend_hack.Orm.Memory.{memory}
use ldb_backend_hack.Runtime.{Runtime}
use ldb_backend_hack.Forwarder.{
  deliver_all, deliver_payment, subscribed, payment_payload, registrations_of,
  emit_payment_received,
}
use ldb_backend_hack.Reconciliation.{
  Payment, fetch_customer, get_by_number, get_by_ref, find_by_ref, after_number, find_account,
  log_quarantine, quarantine_payment, finish_credit, credit_wallet, credit_payment, route_payment,
  process_payment,
}
use ldb_backend_hack.Reconciliation.Reading.{read_payment-Reads}
use ldb_backend_hack.Webhooks.{
  mark_processed, is_processed, either_key, receive_payment, receive_event, receive_request,
  receive,
}
use ldb_backend_hack.Webhooks.Marks.{
  KeepsMark, KeepsMark-bind, KeepsMark-pure, KeepsMark-if, KeepsMark-Reads, deliver-KeepsMark,
  marks_rules,
}

module _ (request_id : String) (rt : Runtime) where
  deliver_all-KeepsMark :
      (body : String) (rs : List WebhookRegistration)
      → KeepsMark request_id (deliver_all rt body rs)
  unfolding deliver_all
  deliver_all-KeepsMark body [] = KeepsMark-pure tt
  deliver_all-KeepsMark body (r ∷ rs) =
      KeepsMark-bind _ _
        (KeepsMark-if (subscribed r) _ _ (deliver-KeepsMark request_id rt body r)
          (KeepsMark-pure tt))
        (λ _. deliver_all-KeepsMark body rs)

  emit_payment_received-KeepsMark :
      (m : Uuid) (c : Customer) (a : DedicatedAccount) (t : Transaction)
      → KeepsMark request_id (emit_payment_received memory rt m c a t)
  unfolding emit_payment_received registrations_of deliver_payment
  emit_payment_received-KeepsMark m c a t = KeepsMark-bind _ _ (search marks_rules) go
    where
      go :
          (rs : List WebhookRegistration)
          → KeepsMark request_id (deliver_payment rt (payment_payload rt c a t) rs)
      go [] = KeepsMark-pure tt
      go (r ∷ rs) = deliver_all-KeepsMark _ (r ∷ rs)

  find_account-KeepsMark :
      (account_number : String) (ref : Json)
      → KeepsMark request_id (find_account memory rt account_number ref)
  unfolding find_account get_by_number get_by_ref find_by_ref after_number
  find_account-KeepsMark account_number ref =
      KeepsMark-if (not (account_number == "")) _ _ (KeepsMark-bind _ _ (search marks_rules) go)
        (search marks_rules)
    where
      go : (o : Option DedicatedAccount) → KeepsMark request_id (after_number memory rt ref o)
      go none = search marks_rules
      go (some a) = KeepsMark-pure (some a)

  module _ (p : Payment) where
    quarantine_payment-KeepsMark :
        (reason decision : String) (account : Option DedicatedAccount)
        → KeepsMark request_id (quarantine_payment memory rt p reason decision account)
    unfolding quarantine_payment log_quarantine
    quarantine_payment-KeepsMark reason decision account = search marks_rules depth 24

    finish_credit-KeepsMark :
        (event_type : String) (account : DedicatedAccount) (t : Transaction) (customer : Customer)
        → KeepsMark request_id (finish_credit memory rt p event_type account t customer)
    unfolding finish_credit
    finish_credit-KeepsMark event_type account t customer =
        search (marks_rules, emit_payment_received-KeepsMark) depth 12

    credit_payment-KeepsMark :
        (event_type : String) (account : DedicatedAccount) (customer : Customer)
        → KeepsMark request_id (credit_payment memory rt p event_type account customer)
    unfolding credit_payment credit_wallet
    credit_payment-KeepsMark event_type account customer =
        search (marks_rules, finish_credit-KeepsMark) depth 16

    route_payment-KeepsMark :
        (event_type : String) (account : Option DedicatedAccount)
        → KeepsMark request_id (route_payment memory rt p event_type account)
    unfolding route_payment fetch_customer
    route_payment-KeepsMark event_type none = quarantine_payment-KeepsMark _ _ none
    route_payment-KeepsMark event_type (some a) =
        search (marks_rules, quarantine_payment-KeepsMark, credit_payment-KeepsMark) depth 8

  process_payment-KeepsMark :
      (id event_type : String) (payload : Json)
      → KeepsMark request_id (process_payment memory rt id event_type payload)
  unfolding process_payment
  process_payment-KeepsMark id event_type payload =
      KeepsMark-bind _ _ (KeepsMark-Reads (read_payment-Reads rt id payload)) (λ p.
        KeepsMark-bind _ _ (find_account-KeepsMark p.alias_account_number p.alias_account_reference)
          (λ a. route_payment-KeepsMark p event_type a))

  mark_processed-KeepsMark :
      (id event_type : String) → KeepsMark request_id (mark_processed memory rt id event_type)
  unfolding mark_processed
  mark_processed-KeepsMark id event_type = search marks_rules depth 8

  pub receive-KeepsMark : (payload : Json) → KeepsMark request_id (receive memory rt payload)
  unfolding receive either_key receive_request receive_event is_processed receive_payment
  receive-KeepsMark payload =
      search (marks_rules, mark_processed-KeepsMark, process_payment-KeepsMark) depth 24
