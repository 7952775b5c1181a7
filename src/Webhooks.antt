-- ===== src/Webhooks.antt =====
-- app/services/webhooks.py: inbound webhooks and simulated funding.
pub mod Request
pub mod Effects
pub mod Once
pub mod Again
pub mod Kept
pub mod Marks
pub mod Balance
pub mod Simulated
pub mod Interrupted
use ldb_backend_hack.Base.{
  pos, ◌==◌, nat_eq, string_eq, String, ◌<>◌, Bool, false, not, Option, none, some, remove_spaces,
  if◌then◌else◌,
}
use ldb_backend_hack.Json.{Json, null, number, text, object, end, field, truthy, or_json}
use ldb_backend_hack.Model.{DedicatedAccount, ProcessedWebhookEvent, Decimal}
use ldb_backend_hack.Action.{Action, ok, pure, raise, lift, ask, error_response, ◌>>=◌, ◌>>◌}
use ldb_backend_hack.Constants.{nomba_payment_success_event, nomba_vact_transfer_type}
use ldb_backend_hack.Orm.{Orm}
use ldb_backend_hack.Runtime.{Runtime, get_default, py_str, uuid4, clock}
use ldb_backend_hack.References.{generate_reference}
use ldb_backend_hack.Tables.{create_processed}
use ldb_backend_hack.Reconciliation.{Outcome, process_payment, get_by_number}

-- The success envelopes of `receive`: the message, and the outcome where there is one.
pub data Receipt : Type 0 where
  already_processed event_ignored transfer_ignored : Receipt
  reconciled quarantined : Outcome → Receipt

-- `"Payment reconciled" if not result["quarantined"] else "Payment quarantined"`
unfoldable pub receipt_of : Outcome → Receipt
receipt_of o = if not o.quarantined then reconciled o else quarantined o

-- The test `event_type != NOMBA_PAYMENT_SUCCESS_EVENT`; a value that is no text is never equal.
unfoldable pub is_text : Json → String → Bool
is_text (text s) t = s == t
is_text j t = false

-- `payload.get(key) or payload.get(other)`
unfoldable pub either_key : String → String → Json → Action Json
either_key key other payload = do
  first ← lift (get_default payload key null)
  second ← lift (get_default payload other null)
  pure (or_json first second)

module _ (orm : Orm) (rt : Runtime) where
  -- `ProcessedWebhookEvent.create(...)` of the three branches
  unfoldable pub mark_processed : String → String → Action ProcessedWebhookEvent
  mark_processed request_id event_type = do
    id ← uuid4 rt
    t ← clock rt
    create_processed orm
        (record { id = id; request_id = request_id; event_type = event_type; processed_at = t })

  -- `ProcessedWebhookEvent.filter(request_id=...).exists()`
  unfoldable pub is_processed : String → Action Bool
  is_processed request_id = ask (λ w.
      ok (orm.exists ProcessedWebhookEvent (λ e. e.request_id == request_id) w.processed_events))

  -- From the test on the type of the transaction on.
  unfoldable pub receive_payment : Json → String → String → Action Receipt
  receive_payment payload request_id event_type = do
    body ← lift (get_default payload "data" (object end))
    transaction ← lift (get_default body "transaction" (object end))
    type ← lift (get_default transaction "type" null)
    if not (is_text type nomba_vact_transfer_type)
        then mark_processed request_id event_type >> pure transfer_ignored
        else do
          result ← process_payment orm rt request_id event_type payload
          mark_processed request_id event_type
          pure (receipt_of result)

  -- From the duplicate test on.
  unfoldable pub receive_event : Json → Json → String → Action Receipt
  receive_event payload event_type request_id = do
    seen ← is_processed request_id
    if seen
        then pure already_processed
        else if not (is_text event_type nomba_payment_success_event)
        then mark_processed request_id (py_str rt event_type) >> pure event_ignored
        else receive_payment payload request_id (py_str rt event_type)

  -- From the test on the request id on.
  unfoldable pub receive_request : Json → Json → Json → Action Receipt
  receive_request payload event request =
      if not (truthy request)
      then raise (error_response 400 "Webhook missing requestId" none)
      else receive_event payload event (py_str rt request)

  unfoldable pub receive : Json → Action Receipt
  receive payload = do
    event ← either_key "event_type" "eventType" payload
    request ← either_key "requestId" "request_id" payload
    receive_request payload event request

-- `SimulateFundingRequestSchema`
pub record SimulateFunding : Type 0 where
  pub account_number : String
  pub amount : Decimal
  pub sender_name : String
  pub sender_bank : String
  pub misdirected : Bool

module _ (rt : Runtime) where
  -- `_build_nomba_payload`
  unfoldable pub build_nomba_payload : String → String → String → Decimal → String → String → Json
  build_nomba_payload request_id account_number account_ref amount sender_name sender_bank =
      object (
        field "event_type" (text nomba_payment_success_event) (
          field "requestId" (text request_id) (
            field "data"
              (object (
                field "transaction"
                  (object (
                    field "aliasAccountNumber" (text account_number) (
                      field "aliasAccountReference" (text account_ref) (
                        field "transactionAmount" (number (rt.float amount)) (
                          field "fee" (number (pos 0)) (
                            field "type" (text nomba_vact_transfer_type) (
                              field "transactionId" (text ("SIM-" <> request_id)) (
                                field "merchantTxRef" (text request_id)
                                  (field "narration" (text "Simulated transfer") end)))))))))
                  (field "customer"
                    (object (
                      field "senderName" (text sender_name)
                        (field "bankName" (text sender_bank) end)))
                    end)))
              end)))

module _ (orm : Orm) (rt : Runtime) where
  -- The payload that `simulate` sends to `receive`.
  unfoldable pub simulated_payload : SimulateFunding → Option DedicatedAccount → String → Json
  simulated_payload body none request_id =
      build_nomba_payload rt request_id "0000000000" "invalid-ref" body.amount body.sender_name
        body.sender_bank
  simulated_payload body (some account) request_id =
      if body.misdirected
      then build_nomba_payload rt request_id "0000000000" "invalid-ref" body.amount body.sender_name
          body.sender_bank
      else build_nomba_payload rt request_id account.account_number account.account_ref body.amount
          body.sender_name body.sender_bank

  unfoldable pub simulate : SimulateFunding → Action Receipt
  simulate body = do
    account ← get_by_number orm (remove_spaces body.account_number)
    request_id ← generate_reference rt
    receive orm rt (simulated_payload body account request_id)
