-- ===== src/Forwarder/Registered.antt =====
-- A webhook that was registered, at the next payment.
use mathlib.Core.List.{map-append}
use ldb_backend_hack.Base.{
  ◌+◌, ◌≡◌, refl, sym, ap, ◌∙◌, ◌==◌, nat_eq, string_eq, true, false, ◌&&◌, List, [], ◌∷◌, ◌++◌,
  any, map, select, append_assoc, select-append, ==_refl,
}
use ldb_backend_hack.Model.{
  World, Delivery, Customer, DedicatedAccount, Transaction, WebhookRegistration, Uuid,
  registration_conflict,
}
use ldb_backend_hack.Constants.{outbound_event_payment_received}
use ldb_backend_hack.Action.{ok, ◌>>=◌, ◌>>◌}
use ldb_backend_hack.Action.Steps.{bind_ok}
use ldb_backend_hack.Orm.{Orm, IsLawful}
use ldb_backend_hack.Orm.Memory.{memory, lawful-eq-memory}
use ldb_backend_hack.Runtime.{Runtime, uuid4, clock}
use ldb_backend_hack.Tables.{create_registration}
use ldb_backend_hack.Forwarder.{
  subscribed, delivery_to, payment_payload, emit_payment_received, RegisterWebhook, register,
}
use ldb_backend_hack.Forwarder.Deliveries.{IsCaught, emit_payment_received_lem}

-- The row that a registration adds.
abbrev pub row_of : Runtime → RegisterWebhook → Uuid → World → WebhookRegistration
row_of rt hook m w = record {
  id = rt.uuid w.ticks;
  merchant_id = m;
  url = hook.url;
  secret = hook.secret;
  events = hook.events;
  active = true;
  created_at = rt.now (w.ticks + 1);
}

abbrev pub registered : Runtime → RegisterWebhook → Uuid → World → World
registered rt hook m w = record w {
  ticks = w.ticks + 1;
  registrations = w.registrations ++ row_of rt hook m w ∷ [];
}

register_lem :
    (rt : Runtime) (hook : RegisterWebhook) (m : Uuid) (w : World)
    → any (registration_conflict (row_of rt hook m w)) w.registrations ≡ false
    → register memory rt hook m w ≡ (ok (row_of rt hook m w), registered rt hook m w)
unfolding register uuid4 clock create_registration ◌>>=◌
register_lem rt hook m w fresh = rw fresh refl

-- The registrations of the merchant that are sent a payment event.
abbrev pub receivers : Uuid → List WebhookRegistration → List WebhookRegistration
receivers m rows = select subscribed (select (λ r. r.merchant_id == m && r.active) rows)

receivers-append :
    (m : Uuid) (r : WebhookRegistration) (rows : List WebhookRegistration)
    → r.merchant_id ≡ m
    → r.active ≡ true
    → subscribed r ≡ true
    → receivers m (rows ++ r ∷ []) ≡ receivers m rows ++ r ∷ []
receivers-append m r rows mine active wanted =
    let is_mine = λ (o : WebhookRegistration). o.merchant_id == m && o.active in
    let kept : select is_mine (rows ++ r ∷ []) ≡ select is_mine rows ++ r ∷ [] =
      select-append is_mine rows (r ∷ []) ∙ rw (mine, active, ==_refl m) refl in
    ap (select subscribed) kept
    ∙ select-append subscribed (select is_mine rows) (r ∷ [])
    ∙ rw wanted refl

-- Over any lawful ORM, if the id that is drawn is not in the table, the webhook names the event of
-- a received payment, and no outbound request ends in an exception other than an `httpx.HTTPError`,
-- then once a merchant has registered a webhook, the next notification of a payment to this
-- merchant goes to all the webhooks that it went to before, and last to the new one, at its URL and
-- signed with its secret; beside the new row and these deliveries nothing changes.
pub register-emit_payment_received :
    (orm : Orm) (laws : IsLawful orm) (rt : Runtime)
    (caught : (n : _) (d : Delivery) → IsCaught (rt.post n d)) (hook : RegisterWebhook) (m : Uuid)
    (c : Customer) (a : DedicatedAccount) (t : Transaction) (w : World)
    → any (λ r. rt.uuid w.ticks == r.id) w.registrations ≡ false
    → any (λ event. event == outbound_event_payment_received) hook.events ≡ true
    → let body = rt.dumps (payment_payload rt c a t) in
      let earlier = w.outbox ++ map (delivery_to rt body) (receivers m w.registrations) in
      let last : Delivery = record {
        url = hook.url;
        content = body;
        signature = rt.hmac_hex hook.secret body;
      } in
      (register orm rt hook m >> emit_payment_received orm rt m c a t) w
      ≡ (ok tt, record (registered rt hook m w) { outbox = earlier ++ last ∷ [] })
unfolding subscribed delivery_to
register-emit_payment_received orm laws rt caught hook m c a t w fresh wanted =
    let body = rt.dumps (payment_payload rt c a t) in
    let first : register orm rt hook m w ≡ (ok (row_of rt hook m w), registered rt hook m w) =
      rw (lawful-eq-memory orm laws) (register_lem rt hook m w fresh) in
    bind_ok (register orm rt hook m) (λ _. emit_payment_received orm rt m c a t) first
    ∙ emit_payment_received_lem orm laws rt caught m c a t (registered rt hook m w)
    ∙ ap (λ ds. (ok tt, record (registered rt hook m w) { outbox = ds }))
        (ap (λ rs. w.outbox ++ map (delivery_to rt body) rs)
            (receivers-append m (row_of rt hook m w) w.registrations refl refl wanted)
          ∙ ap (λ ds. w.outbox ++ ds)
              (map-append (delivery_to rt body) (receivers m w.registrations)
                (row_of rt hook m w ∷ []))
          ∙ sym (append_assoc w.outbox _ _))
