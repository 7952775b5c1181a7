-- ===== src/Webhooks/Again.antt =====
-- A delivery of a webhook after one that was answered.
use ldb_backend_hack.Base.{
  ◌≡◌, refl, sym, subst, ap, ◌∙◌, ◌==◌, nat_eq, string_eq, String, Bool, true, false, not, List, [],
  ◌∷◌, ◌++◌, any, inl, inr, Bool-cases, arith, ==_refl, if◌then◌else◌,
}
use ldb_backend_hack.Json.{Json, object}
use ldb_backend_hack.Model.{World, ProcessedWebhookEvent, processed_conflict}
use ldb_backend_hack.Action.{Action, Result, ok, pure, ask, ◌>>=◌, ◌>>◌, integrity_error}
use ldb_backend_hack.Action.Steps.{bind_ok, bind-eq-ok, ask_ok, raised_ne_ok, ok_injective}
use ldb_backend_hack.Constants.{nomba_payment_success_event, nomba_vact_transfer_type}
use ldb_backend_hack.Orm.{Orm, IsLawful}
use ldb_backend_hack.Orm.Memory.{memory, lawful-eq-memory}
use ldb_backend_hack.Runtime.{Runtime, py_str}
use ldb_backend_hack.Tables.{create_processed}
use ldb_backend_hack.Tables.Memory.{create_processed_new, create_processed_taken}
use ldb_backend_hack.Webhooks.{
  Receipt, already_processed, is_text, mark_processed, is_processed, receive_payment, receive_event,
  receive_request, receive,
}
use ldb_backend_hack.Webhooks.Request.{event_of, receive_lem}
use ldb_backend_hack.Webhooks.Effects.{NamesRequest}
use ldb_backend_hack.Webhooks.Marks.{IsMarked}
use ldb_backend_hack.System.{Later}
use ldb_backend_hack.System.Marks.{Later-IsMarked}

-- Where the action returns, the request is marked.
record Marks (request_id : String) {A : Type 0} (m : Action A) : Type 0 where
  ends : (w w' : World) (a : A) → m w ≡ (ok a, w') → IsMarked request_id w'

module _ (request_id : String) {A B : Type 0} where
  Marks-bind :
      (m : Action A) (f : A → Action B)
      → ((a : A) → Marks request_id (f a))
      → Marks request_id (m >>= f)
  Marks-bind m f k = record {
    ends = λ w w' b h. let (a, v, e, e') = bind-eq-ok m f h in (k a).ends v w' b e';
  }

  Marks-pure : (m : Action A) (b : B) → Marks request_id m → Marks request_id (m >> pure b)
  unfolding pure
  Marks-pure m b k = record {
    ends = λ w w' c h.
        let (a, v, e, e') = bind-eq-ok m (λ _. pure b) h in
        subst (IsMarked request_id) (ap (λ (x : Result B × World). x.1) e') (k.ends w v a e);
  }

-- A list to which the event was added names its request.
marked_after_append :
    (es : List ProcessedWebhookEvent) (e : ProcessedWebhookEvent)
    → any (λ f. f.request_id == e.request_id) (es ++ e ∷ []) ≡ true
marked_after_append [] e = rw (==_refl e.request_id) refl
marked_after_append (f ∷ es) e = ground (arith, marked_after_append es e)

create_processed-Marks :
    (e : ProcessedWebhookEvent) → Marks e.request_id (create_processed memory e)
create_processed-Marks e = record {
  ends = λ w w' a h. elim (Bool-cases (any (processed_conflict e) w.processed_events)) [
    | inl taken ↦ absurd (
        raised_ne_ok integrity_error a (
          ap (λ (x : Result ProcessedWebhookEvent × World). x.0)
            (sym (create_processed_taken e w taken) ∙ h)))
    | inr new ↦
        subst (IsMarked e.request_id)
          (ap (λ (x : Result ProcessedWebhookEvent × World). x.1)
            (sym (create_processed_new e w new) ∙ h))
          (marked_after_append w.processed_events e)
  ];
}

module _ (rt : Runtime) (request_id : String) where
  mark_processed-Marks :
      (event_type : String) → Marks request_id (mark_processed memory rt request_id event_type)
  unfolding mark_processed
  mark_processed-Marks event_type = Marks-bind request_id _ _ (λ id. Marks-bind request_id _ _ (λ t.
      create_processed-Marks
        (record { id = id; request_id = request_id; event_type = event_type; processed_at = t })))

  receive_payment-Marks :
      (payload : Json) (event_type : String)
      → Marks request_id (receive_payment memory rt payload request_id event_type)
  unfolding receive_payment
  receive_payment-Marks payload event_type = Marks-bind request_id _ _ (λ body.
      Marks-bind request_id _ _ (λ transaction. Marks-bind request_id _ _ (λ type.
        elim (Bool-cases (is_text type nomba_vact_transfer_type)) [
          | inl transfer ↦ rw transfer (
              Marks-bind request_id _ _
                (λ o. Marks-pure request_id _ _ (mark_processed-Marks event_type)))
          | inr other ↦ rw other (Marks-pure request_id _ _ (mark_processed-Marks event_type))
        ])))

  -- The part of `receive_event` after the duplicate test.
  after_test :
      (payload event : Json) (seen : Bool) (v w' : World) (r : Receipt)
      → (if seen
            then pure already_processed
            else if not (is_text event nomba_payment_success_event)
            then mark_processed memory rt request_id (py_str rt event) >> pure Receipt.event_ignored
            else receive_payment memory rt payload request_id (py_str rt event))
          v
        ≡ (ok r, w')
      → (seen ≡ true → IsMarked request_id v)
      → IsMarked request_id w'
  unfolding pure
  after_test payload event true v w' r h marked =
      subst (IsMarked request_id) (ap (λ (x : Result Receipt × World). x.1) h) (marked refl)
  after_test payload event false v w' r h marked =
      elim (Bool-cases (is_text event nomba_payment_success_event)) [
        | inl payment ↦
            (receive_payment-Marks payload (py_str rt event)).ends v w' r (rw payment at h)
        | inr other ↦
            (Marks-pure request_id _ Receipt.event_ignored
                (mark_processed-Marks (py_str rt event))).ends
              v w' r (rw other at h)
      ]

  receive_event_marks :
      (payload event : Json) (w w' : World) (r : Receipt)
      → receive_event memory rt payload event request_id w ≡ (ok r, w')
      → IsMarked request_id w'
  unfolding receive_event is_processed
  receive_event_marks payload event w w' r h =
      let (seen, v, e, e') = bind-eq-ok (is_processed memory rt request_id) _ h in
      let (same, found) = ask_ok _ w v e in
      after_test payload event seen v w' r e'
        (λ old. subst (IsMarked request_id) (sym same) (ok_injective found ∙ old))

  -- A marked request is answered as a duplicate, with nothing done.
  receive_event_of_marked :
      (payload event : Json) (w : World)
      → IsMarked request_id w
      → receive_event memory rt payload event request_id w ≡ (ok already_processed, w)
  unfolding receive_event is_processed ask pure
  receive_event_of_marked payload event w marked =
      bind_ok (is_processed memory rt request_id) _ (ap (λ b. (ok b, w)) marked)

module _ (rt : Runtime) (request_id : String) where
  receive_named :
      (payload : Json) (w : World)
      → NamesRequest rt payload request_id
      → (event : Json) × (receive memory rt payload w
          ≡ receive_event memory rt payload event request_id w)
  unfolding receive_request
  receive_named (object fields) w (given, named) =
      (event_of fields, receive_lem memory rt fields w ∙ rw (given, named) refl)
  receive_named (Json.text s) w h = elim h [ ]
  receive_named _ w h = elim h [ ]

  receive_again_memory :
      (first second : Json) (w w' v : World) (r : Receipt)
      → NamesRequest rt first request_id
      → NamesRequest rt second request_id
      → receive memory rt first w ≡ (ok r, w')
      → Later memory rt w' v
      → receive memory rt second v ≡ (ok already_processed, v)
  receive_again_memory first second w w' v r h k answered later =
      let (event, e) = receive_named first w h in
      let (event', e') = receive_named second v k in
      let marked : IsMarked request_id w' =
        receive_event_marks rt request_id first event w w' r (sym e ∙ answered) in
      e'
      ∙ receive_event_of_marked rt request_id second event' v
          (Later-IsMarked request_id rt later marked)

-- Over any lawful ORM, once a delivery of a request has been answered, whatever the answer was, any
-- later delivery of the same request, also with another body, is answered as already processed and
-- changes nothing. Between the two there may be any number of requests to any route and of runs of
-- the nightly job, where Nomba reports no negative amounts and simulated ones are above 0.
pub receive_again :
    (orm : Orm) (laws : IsLawful orm) (rt : Runtime) (request_id : String) (first second : Json)
    (w w' v : World) (r : Receipt)
    → NamesRequest rt first request_id
    → NamesRequest rt second request_id
    → receive orm rt first w ≡ (ok r, w')
    → Later orm rt w' v
    → receive orm rt second v ≡ (ok already_processed, v)
receive_again orm laws rt request_id first second w w' v r h k answered later =
    rw (lawful-eq-memory orm laws) (
      receive_again_memory rt request_id first second w w' v r h k
        (rw (lawful-eq-memory orm laws) at answered)
        (subst (λ o. Later o rt w' v) (lawful-eq-memory orm laws) later))
