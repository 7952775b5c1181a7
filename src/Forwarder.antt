-- ===== src/Forwarder.antt =====
-- app/services/webhook_forwarder.py: delivery of payment events to the merchant's webhooks.
pub mod Registered
pub mod Frame
pub mod Deliveries
use ldb_backend_hack.Base.{
  true, pos, ◌==◌, nat_eq, string_eq, String, Bool, ◌&&◌, Option, none, some, List, [], ◌∷◌, ◌++◌,
  any, length, if◌then◌else◌, zero,
}
use ldb_backend_hack.Json.{Json, null, text, object, end, field}
use ldb_backend_hack.Model.{
  Customer, DedicatedAccount, Transaction, WebhookRegistration, Delivery, Uuid, Decimal,
  status_value,
}
use ldb_backend_hack.Action.{Action, ok, raised, pure, ask, transport_failure, ◌>>=◌, ◌>>◌}
use ldb_backend_hack.Constants.{outbound_event_payment_received}
use ldb_backend_hack.Orm.{Orm}
use ldb_backend_hack.Runtime.{Runtime, delivered, http_error, failed, uuid4, clock}
use ldb_backend_hack.Tables.{create_registration}
use ldb_backend_hack.Helpers.{outstanding_balance}

abbrev option_text : Option String → Json
option_text none = null
option_text (some s) = text s

-- `OUTBOUND_EVENT_PAYMENT_RECEIVED in registration.events`
unfoldable pub subscribed : WebhookRegistration → Bool
subscribed r = any (λ event. event == outbound_event_payment_received) r.events

module _ (rt : Runtime) where
  -- `str(target) if target else None`: a target of 0 is left out too.
  unfoldable pub target_text : Option Decimal → Json
  target_text none = null
  target_text (some (pos zero)) = null
  target_text (some d) = text (rt.show_decimal d)

  abbrev decimal_text : Option Decimal → Json
  decimal_text none = null
  decimal_text (some d) = text (rt.show_decimal d)

  unfoldable pub payment_payload : Customer → DedicatedAccount → Transaction → Json
  payment_payload customer account transaction = object (
      field "event" (text outbound_event_payment_received) (
        field "data"
          (object (
            field "customerId" (text customer.merchant_customer_id) (
              field "customerName" (text customer.name) (
                field "accountNumber" (text account.account_number) (
                  field "amountReceived" (text (rt.show_decimal transaction.amount)) (
                    field "walletBalance" (text (rt.show_decimal customer.wallet_balance)) (
                      field "targetAmount" (target_text customer.target_amount) (
                        field "status" (text (status_value transaction.status)) (
                          field "outstandingBalance" (decimal_text (outstanding_balance customer)) (
                            field "transactionRef" (option_text transaction.merchant_tx_ref) (
                              field "senderName" (option_text transaction.sender_name) (
                                field "senderBank" (option_text transaction.sender_bank)
                                  end))))))))))))
          end))

  -- The request that a registration is sent.
  unfoldable pub delivery_to : String → WebhookRegistration → Delivery
  delivery_to body r = record { url = r.url; content = body; signature = rt.hmac_hex r.secret body }

  -- The `try` statement: an `httpx.HTTPError` is logged, any other exception goes on.
  unfoldable pub deliver : String → WebhookRegistration → Action (Unit {0})
  deliver body r w =
      let d = delivery_to body r in
      let sent = record w { outbox = w.outbox ++ d ∷ [] } in
      elim (rt.post (length w.outbox) d) [
        | delivered code ↦ (ok tt, sent)
        | http_error message ↦ (ok tt, sent)
        | failed ↦ (raised transport_failure, sent)
      ]

  -- The loop over the registrations.
  unfoldable pub deliver_all : String → List WebhookRegistration → Action (Unit {0})
  deliver_all body [] = pure tt
  deliver_all body (r ∷ rest) =
      (if subscribed r then deliver body r else pure tt) >> deliver_all body rest

  -- From the test `if not registrations` on.
  unfoldable pub deliver_payment : Json → List WebhookRegistration → Action (Unit {0})
  deliver_payment payload [] = pure tt
  deliver_payment payload (r ∷ rest) = deliver_all (rt.dumps payload) (r ∷ rest)

module _ (orm : Orm) where
  -- `WebhookRegistration.filter(merchant_id=..., active=True)`
  unfoldable pub registrations_of : Uuid → Action (List WebhookRegistration)
  registrations_of merchant_id = ask (λ w. ok (
      orm.filter WebhookRegistration (λ r. r.merchant_id == merchant_id && r.active)
        w.registrations))

module _ (orm : Orm) (rt : Runtime) where
  unfoldable pub emit_payment_received :
      Uuid → Customer → DedicatedAccount → Transaction → Action (Unit {0})
  emit_payment_received merchant_id customer account transaction = do
    registrations ← registrations_of orm merchant_id
    deliver_payment rt (payment_payload rt customer account transaction) registrations

-- `RegisterWebhookRequestSchema`
pub record RegisterWebhook : Type 0 where
  pub url : String
  pub secret : String
  pub events : List String

module _ (orm : Orm) (rt : Runtime) where
  -- `WebhookForwarderService.register`; the response shows the new row without its secret.
  unfoldable pub register : RegisterWebhook → Uuid → Action WebhookRegistration
  register body merchant_id = do
    id ← uuid4 rt
    t ← clock rt
    create_registration orm (record {
      id = id;
      merchant_id = merchant_id;
      url = body.url;
      secret = body.secret;
      events = body.events;
      active = true;
      created_at = t;
    })
