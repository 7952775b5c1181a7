-- ===== src/Forwarder/Deliveries.antt =====
-- Which registrations are sent a payment event, and what each of them is sent.
use ldb_backend_hack.Base.{
  ◌≡◌, refl, sym, ap, ◌∙◌, String, ◌==◌, nat_eq, ◌&&◌, List, [], ◌∷◌, ◌++◌, map, select, append-nil,
  append_assoc, length, inl, inr, Bool-cases,
}
use ldb_backend_hack.Model.{
  World, Delivery, Customer, DedicatedAccount, Transaction, WebhookRegistration, Uuid,
}
use ldb_backend_hack.Action.{ok, pure, ask}
use ldb_backend_hack.Action.Steps.{bind_ok}
use ldb_backend_hack.Orm.{Orm, IsLawful}
use ldb_backend_hack.Orm.Memory.{memory, lawful-eq-memory}
use ldb_backend_hack.Runtime.{Runtime, Posted, delivered, http_error, failed}
use ldb_backend_hack.Forwarder.{
  subscribed, delivery_to, deliver, deliver_all, deliver_payment, payment_payload, registrations_of,
  emit_payment_received,
}

-- No delivery ends in an exception other than `httpx.HTTPError`.
abbrev pub IsCaught : Posted → Type 0
IsCaught (delivered code) = Unit
IsCaught (http_error message) = Unit
IsCaught failed = ⊥

module _ (rt : Runtime) (caught : (n : _) (d : Delivery) → IsCaught (rt.post n d)) where
  deliver_lem :
      (body : String) (r : WebhookRegistration) (w : World)
      → deliver rt body r w ≡ (ok tt, record w { outbox = w.outbox ++ delivery_to rt body r ∷ [] })
  unfolding deliver
  deliver_lem body r w = go (rt.post (length w.outbox) (delivery_to rt body r)) (caught _ _) refl
    where
      go :
          (p : Posted)
          → IsCaught p
          → rt.post (length w.outbox) (delivery_to rt body r) ≡ p
          → deliver rt body r w
            ≡ (ok tt, record w { outbox = w.outbox ++ delivery_to rt body r ∷ [] })
      go (delivered code) c e = rw (e, deliver) refl
      go (http_error message) c e = rw (e, deliver) refl
      go failed c e = absurd c

  deliver_all_lem :
      (body : String) (rs : List WebhookRegistration) (w : World)
      → deliver_all rt body rs w ≡ (
        ok tt,
        record w { outbox = w.outbox ++ map (delivery_to rt body) (select subscribed rs) },
      )
  unfolding deliver_all pure
  deliver_all_lem body [] w = ap (λ o. (ok tt, record w { outbox = o })) (sym (append-nil w.outbox))
  deliver_all_lem body (r ∷ rs) w = elim (Bool-cases (subscribed r)) [
    | inl wanted ↦ rw wanted (
        bind_ok (deliver rt body r) (λ _. deliver_all rt body rs) (deliver_lem body r w)
        ∙ deliver_all_lem body rs _
        ∙ ap (λ o. (ok tt, record w { outbox = o }))
            (append_assoc w.outbox (delivery_to rt body r ∷ []) _))
    | inr unwanted ↦
        rw unwanted
          (bind_ok (pure tt) (λ _. deliver_all rt body rs) refl ∙ deliver_all_lem body rs w)
  ]

  emit_payment_received-memory :
      (m : Uuid) (c : Customer) (a : DedicatedAccount) (t : Transaction) (w : World)
      → let body = rt.dumps (payment_payload rt c a t) in
        let rs = select subscribed (select (λ r. r.merchant_id == m && r.active) w.registrations) in
        emit_payment_received memory rt m c a t w
        ≡ (ok tt, record w { outbox = w.outbox ++ map (delivery_to rt body) rs })
  unfolding emit_payment_received registrations_of ask deliver_payment pure
  emit_payment_received-memory m c a t w =
      bind_ok (registrations_of memory m) (deliver_payment rt (payment_payload rt c a t)) refl
      ∙ go (select (λ r. r.merchant_id == m && r.active) w.registrations)
    where
      go :
          (rs : List WebhookRegistration)
          → let body = rt.dumps (payment_payload rt c a t) in
            deliver_payment rt (payment_payload rt c a t) rs w ≡ (
              ok tt,
              record w { outbox = w.outbox ++ map (delivery_to rt body) (select subscribed rs) },
            )
      go [] = ap (λ o. (ok tt, record w { outbox = o })) (sym (append-nil w.outbox))
      go (r ∷ rs) = deliver_all_lem _ (r ∷ rs) w

-- Over any lawful ORM, if no outbound request ends in an exception other than an `httpx.HTTPError`,
-- then every active registration of the merchant that names the event, and no other, is sent the
-- signed body once, in the order of registration and behind the earlier deliveries; nothing else
-- changes, and no exception comes back, whatever the endpoints answer.
pub emit_payment_received_lem :
    (orm : Orm) (laws : IsLawful orm) (rt : Runtime)
    (caught : (n : _) (d : Delivery) → IsCaught (rt.post n d)) (m : Uuid) (c : Customer)
    (a : DedicatedAccount) (t : Transaction) (w : World)
    → let body = rt.dumps (payment_payload rt c a t) in
      let rs = select subscribed (select (λ r. r.merchant_id == m && r.active) w.registrations) in
      emit_payment_received orm rt m c a t w
      ≡ (ok tt, record w { outbox = w.outbox ++ map (delivery_to rt body) rs })
emit_payment_received_lem orm laws rt caught m c a t w =
    rw (lawful-eq-memory orm laws) (emit_payment_received-memory rt caught m c a t w)
