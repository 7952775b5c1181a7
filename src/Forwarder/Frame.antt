-- ===== src/Forwarder/Frame.antt =====
-- app/services/webhook_forwarder.py against the tables: the frame of a delivery.
use ldb_backend_hack.Base.{String, List, [], ◌∷◌, arith}
use ldb_backend_hack.Json.{Json}
use ldb_backend_hack.Model.{Customer, DedicatedAccount, Transaction, WebhookRegistration, Uuid}
use ldb_backend_hack.Action.{ask}
use ldb_backend_hack.Orm.{Orm}
use ldb_backend_hack.Runtime.{Runtime}
use ldb_backend_hack.Forwarder.{
  deliver, deliver_all, subscribed, deliver_payment, payment_payload, registrations_of,
  emit_payment_received,
}
use ldb_backend_hack.Ledger.Keeps.{
  KeepsLedger, KeepsLedger-pure, KeepsLedger-if, KeepsLedger-bind, Unchanged-refl,
}

module _ (rt : Runtime) where
  deliver-KeepsLedger : (body : String) (r : WebhookRegistration) → KeepsLedger (deliver rt body r)
  unfolding deliver
  deliver-KeepsLedger body r = record { at = λ w. ground arith }

  deliver_all-KeepsLedger :
      (body : String) (rs : List WebhookRegistration) → KeepsLedger (deliver_all rt body rs)
  unfolding deliver_all
  deliver_all-KeepsLedger body [] = KeepsLedger-pure tt
  deliver_all-KeepsLedger body (r ∷ rs) =
      KeepsLedger-bind _ _
        (KeepsLedger-if (subscribed r) _ _ (deliver-KeepsLedger body r) (KeepsLedger-pure tt))
        (λ _. deliver_all-KeepsLedger body rs)

  deliver_payment-KeepsLedger :
      (payload : Json) (rs : List WebhookRegistration) → KeepsLedger (deliver_payment rt payload rs)
  unfolding deliver_payment
  deliver_payment-KeepsLedger payload [] = KeepsLedger-pure tt
  deliver_payment-KeepsLedger payload (r ∷ rs) = deliver_all-KeepsLedger _ (r ∷ rs)

module _ (orm : Orm) where
  registrations_of-KeepsLedger : (m : Uuid) → KeepsLedger (registrations_of orm m)
  unfolding registrations_of ask
  registrations_of-KeepsLedger m = record { at = Unchanged-refl }

module _ (orm : Orm) (rt : Runtime) where
  pub emit_payment_received-KeepsLedger :
      (m : Uuid) (c : Customer) (a : DedicatedAccount) (t : Transaction)
      → KeepsLedger (emit_payment_received orm rt m c a t)
  unfolding emit_payment_received
  emit_payment_received-KeepsLedger m c a t =
      KeepsLedger-bind _ _ (registrations_of-KeepsLedger orm m)
        (λ rs. deliver_payment-KeepsLedger rt (payment_payload rt c a t) rs)
