-- ===== src/Tests/Webhooks.antt =====
-- A second webhook on the sample.
use ldb_backend_hack.Base.{◌≡◌, refl, nat_eq, string_eq, [], ◌∷◌, ◌++◌, map}
use ldb_backend_hack.Model.{Delivery}
use ldb_backend_hack.Constants.{outbound_event_payment_received}
use ldb_backend_hack.Action.{ok, ◌>>◌}
use ldb_backend_hack.Orm.Memory.{memory, memory-IsLawful}
use ldb_backend_hack.Forwarder.{
  delivery_to, payment_payload, emit_payment_received, RegisterWebhook, register,
}
use ldb_backend_hack.Forwarder.Registered.{receivers, registered, register-emit_payment_received}
use ldb_backend_hack.Tests.{sample_runtime, sample_world, half_paid, sample_account, paid}

abbrev second_hook : RegisterWebhook
second_hook = record {
  url = "https://second.example/hook";
  secret = "second";
  events = outbound_event_payment_received ∷ [];
}

register-emit_payment_received_example :
    let body =
      sample_runtime.dumps (payment_payload sample_runtime half_paid sample_account paid) in
    let earlier =
      [] ++ map (delivery_to sample_runtime body) (receivers 7 sample_world.registrations) in
    let last : Delivery = record {
      url = "https://second.example/hook";
      content = body;
      signature = sample_runtime.hmac_hex "second" body;
    } in
    (register memory sample_runtime second_hook 7
        >> emit_payment_received memory sample_runtime 7 half_paid sample_account paid)
      sample_world
    ≡ (
      ok tt,
      record (registered sample_runtime second_hook 7 sample_world) {
        outbox = earlier ++ last ∷ [];
      },
    )
unfolding nat_eq string_eq
register-emit_payment_received_example =
    register-emit_payment_received memory memory-IsLawful sample_runtime (λ n d. tt) second_hook 7
      half_paid sample_account paid sample_world refl refl
