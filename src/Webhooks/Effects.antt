-- ===== src/Webhooks/Effects.antt =====
-- What a delivery of a webhook does to the ledger, in terms of `process_payment`.
use ldb_backend_hack.Base.{
  ◌≡◌, refl, subst, ap, String, true, false, inl, inr, ◌⊎◌, Bool-cases, arith,
}
use ldb_backend_hack.Json.{Json, Fields, object, truthy}
use ldb_backend_hack.Model.{World, ProcessedWebhookEvent}
use ldb_backend_hack.Action.{Result, pure, raise, ◌>>=◌, ◌>>◌}
use ldb_backend_hack.Action.Steps.{bind_elim, lift_elim, ask_elim}
use ldb_backend_hack.Constants.{nomba_payment_success_event, nomba_vact_transfer_type}
use ldb_backend_hack.Orm.Memory.{memory}
use ldb_backend_hack.Runtime.{Runtime, py_str, get_default}
use ldb_backend_hack.Tables.{create_processed}
use ldb_backend_hack.Reconciliation.{Outcome, process_payment}
use ldb_backend_hack.Reconciliation.Entries.{uuid4-KeepsLedger, clock-KeepsLedger}
use ldb_backend_hack.Reconciliation.Books.{
  Processes, unread, Processes-Unchanged, process_payment-Processes,
}
use ldb_backend_hack.Ledger.{Unchanged}
use ldb_backend_hack.Ledger.Keeps.{
  KeepsLedger, KeepsLedger-pure, KeepsLedger-bind, Unchanged-refl, keeps_rules,
}
use ldb_backend_hack.Webhooks.Request.{event_of, request_of, receive_lem}
use ldb_backend_hack.Webhooks.{
  Receipt, receipt_of, is_text, mark_processed, is_processed, receive_payment, receive_event,
  receive_request, receive, either_key,
}

module _ (rt : Runtime) where
  create_processed-KeepsLedger :
      (e : ProcessedWebhookEvent) → KeepsLedger (create_processed memory e)
  unfolding create_processed
  create_processed-KeepsLedger e = record { at = λ w. ground arith }

  pub mark_processed-KeepsLedger :
      (request_id event_type : String)
      → KeepsLedger (mark_processed memory rt request_id event_type)
  unfolding mark_processed
  mark_processed-KeepsLedger request_id event_type =
      search (keeps_rules, uuid4-KeepsLedger rt, clock-KeepsLedger rt, create_processed-KeepsLedger)
        depth 8

  -- A branch that ignores the webhook.
  ignore-KeepsLedger :
      (request_id event_type : String) (r : Receipt)
      → KeepsLedger (mark_processed memory rt request_id event_type >> pure r)
  ignore-KeepsLedger request_id event_type r =
      KeepsLedger-bind _ _ (mark_processed-KeepsLedger request_id event_type)
        (λ _. KeepsLedger-pure r)

module _ (rt : Runtime) (payload : Json) (request_id : String) where
  -- Nothing, or what processing the payment does.
  abbrev Step : World → Result Receipt × World → Type 0
  Step w (r, w') = Processes rt request_id payload w w'

  still : {w w' : World} → Unchanged w w' → Processes rt request_id payload w w'
  still = unread

  receive_payment-Processes :
      (event_type : String) (w : World)
      → Processes rt request_id payload w
          (receive_payment memory rt payload request_id event_type w).1
  unfolding receive_payment
  receive_payment-Processes event_type w =
      lift_elim _ _ w (Step w)
        (λ body _.
          lift_elim _ _ w (Step w)
            (λ transaction _.
              lift_elim _ _ w (Step w)
                (λ type _. elim (Bool-cases (is_text type nomba_vact_transfer_type)) [
                  | inl transfer ↦ rw transfer (
                      bind_elim (process_payment memory rt request_id event_type payload) _ w
                        (Step w)
                        (λ o v e.
                          Processes-Unchanged rt request_id payload
                            (subst (Processes rt request_id payload w)
                              (ap (λ (x : Result Outcome × World). x.1) e)
                              (process_payment-Processes rt request_id event_type payload w))
                            ((ignore-KeepsLedger rt request_id event_type (receipt_of o)).at v))
                        (λ x v e.
                          subst (Processes rt request_id payload w)
                            (ap (λ (x : Result Outcome × World). x.1) e)
                            (process_payment-Processes rt request_id event_type payload w)))
                  | inr other ↦ rw other (
                      still (
                        (ignore-KeepsLedger rt request_id event_type Receipt.transfer_ignored).at
                          w))
                ])
                (λ e. still (Unchanged-refl w)))
            (λ e. still (Unchanged-refl w)))
        (λ e. still (Unchanged-refl w))

  pub receive_event-Processes :
      (event : Json) (w : World)
      → Processes rt request_id payload w (receive_event memory rt payload event request_id w).1
  unfolding receive_event is_processed
  receive_event-Processes event w =
      ask_elim _ _ w (Step w)
        (λ seen _. elim (Bool-cases seen) [
          | inl old ↦ rw old (still ((KeepsLedger-pure Receipt.already_processed).at w))
          | inr new ↦ rw new (elim (Bool-cases (is_text event nomba_payment_success_event)) [
            | inl payment ↦ rw payment (receive_payment-Processes (py_str rt event) w)
            | inr other ↦ rw other (
                still
                  ((ignore-KeepsLedger rt request_id (py_str rt event) Receipt.event_ignored).at w))
          ])
        ])
        (λ e. still (Unchanged-refl w))

-- The request that a webhook body names, as it is stored.
abbrev pub NamesRequest : Runtime → Json → String → Type 0
NamesRequest rt (object fields) request_id =
    (truthy (request_of fields) ≡ true) × (py_str rt (request_of fields) ≡ request_id)
NamesRequest rt payload request_id = ⊥

module _ (rt : Runtime) where
  -- A body that names a request does to the ledger what processing it does.
  pub receive-Processes :
      (payload : Json) (request_id : String) (w : World)
      → NamesRequest rt payload request_id
      → Processes rt request_id payload w (receive memory rt payload w).1
  unfolding receive_request
  receive-Processes (object fields) request_id w (given, named) =
      rw (receive_lem memory rt fields w) (
        rw (given, named)
          (receive_event-Processes rt (object fields) request_id (event_of fields) w))
  receive-Processes (Json.text s) request_id w h = elim h [ ]
  receive-Processes _ request_id w h = elim h [ ]

  -- Any other body leaves the ledger alone.
  receive_unnamed :
      (fields : Fields) (w : World)
      → truthy (request_of fields) ≡ false
      → Unchanged w (receive memory rt (object fields) w).1
  unfolding receive_request raise
  receive_unnamed fields w missing =
      rw (receive_lem memory rt fields w) (rw missing (Unchanged-refl w))

  -- Whatever the body is, the ledger is unchanged or the request that it names is processed.
  pub receive-cases :
      (payload : Json) (w : World)
      → Unchanged w (receive memory rt payload w).1
        ⊎ ((request_id : String) × Processes rt request_id payload w
              (receive memory rt payload w).1)
  unfolding receive either_key get_default ◌>>=◌
  receive-cases (object fields) w = elim (Bool-cases (truthy (request_of fields))) [
    | inl given ↦
        let request_id = py_str rt (request_of fields) in
        inr (request_id, receive-Processes (object fields) request_id w (given, refl))
    | inr missing ↦ inl (receive_unnamed fields w missing)
  ]
  receive-cases (Json.text s) w = inl (Unchanged-refl w)
  receive-cases _ w = inl (Unchanged-refl w)
