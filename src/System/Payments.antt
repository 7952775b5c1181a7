-- ===== src/System/Payments.antt =====
-- Webhooks, simulated transfers and the nightly job against the invariant of the ledger.
use ldb_backend_hack.Base.{
  pos, ◌≤ℤ◌, ◌<ℤ◌, ◌≡◌, refl, sym, subst, string_eq, nat_eq, remove_spaces, ◌<>◌, not, Option, none,
  some, String, inl, inr, Bool-cases, arith,
}
use ldb_backend_hack.Json.{Json, text, lookup}
use ldb_backend_hack.Model.{World, DedicatedAccount, Decimal}
use ldb_backend_hack.Action.{ok, pure, lift, ◌>>=◌}
use ldb_backend_hack.Action.Reads.{Answers}
use ldb_backend_hack.Action.Safe.{Safe, Safe-bind, Safe-raise, Safe-lift, Safe-if, Safe-always}
use ldb_backend_hack.Action.Steps.{bind_elim}
use ldb_backend_hack.Orm.Memory.{memory}
use ldb_backend_hack.Runtime.{Runtime, get_default, decimal_of, nullable_text}
use ldb_backend_hack.References.Draws.{generate_reference-Reads}
use ldb_backend_hack.Nomba.{Answer}
use ldb_backend_hack.Reconciliation.{
  Payment, read_payment, get_by_number, reference_or_new, account_number_of,
}
use ldb_backend_hack.Reconciliation.Books.{Processes, unread, books}
use ldb_backend_hack.Webhooks.{
  receive, simulate, SimulateFunding, simulated_payload, build_nomba_payload,
}
use ldb_backend_hack.Webhooks.Balance.{HasNoNegative}
use ldb_backend_hack.Webhooks.Effects.{receive-cases}
use ldb_backend_hack.Hooks.{Gate, nomba_webhook}
use ldb_backend_hack.Nightly.{run_nightly_reconciliation}
use ldb_backend_hack.Nightly.Run.{run_nightly_reconciliation-Unchanged}
use ldb_backend_hack.Ledger.Keeps.{KeepsLedger-Reads, keeps_rules}
use ldb_backend_hack.Ledger.Sound.{IsSound}
use ldb_backend_hack.Ledger.Sound.Payments.{Sound, Sound-of_Unchanged, Sound-of_Books}
use ldb_backend_hack.System.Rules.{Safe_of_keeps}

-- No amount that is read out of the body is negative.
abbrev pub IsPositive : Runtime → Json → Type 0
IsPositive rt payload = (w : World) → HasNoNegative rt payload w

module _ (rt : Runtime) where
  receive-Sound :
      (payload : Json)
      → IsPositive rt payload
      → (w : World) → Sound w
      → Sound (receive memory rt payload w).1
  receive-Sound payload nonneg w h = elim (receive-cases rt payload w) [
    | inl same ↦ Sound-of_Unchanged same h
    | inr (request_id, step) ↦ go request_id (receive memory rt payload w).1 step
  ]
    where
      go : (request_id : String) (v : World) → Processes rt request_id payload w v → Sound v
      go request_id v (unread same) = Sound-of_Unchanged same h
      go request_id v (books p read same b) = Sound-of_Books p w v (nonneg w request_id p read) b h

  pub receive-Safe :
      (payload : Json)
      → IsPositive rt payload
      → Safe Sound (receive memory rt payload) (λ _. Sound) Sound
  receive-Safe payload nonneg = Safe-always _ (receive-Sound payload nonneg)

  simulated_amount :
      (request_id ref_id number ref sender_name sender_bank : String) (amount : Decimal) (w : World)
      → Answers
          (λ (p : Payment). p.amount ≡ rt.float amount)
          (read_payment rt request_id
            (build_nomba_payload rt ref_id number ref amount sender_name sender_bank)
            w).0
  unfolding read_payment build_nomba_payload get_default lookup string_eq decimal_of
      account_number_of ◌>>=◌ pure lift
  simulated_amount request_id ref_id number ref sender_name sender_bank amount w =
      bind_elim (reference_or_new rt (text ref_id))
        (λ tx_ref. pure (record {
          request_id = request_id;
          amount = rt.float amount;
          fee = pos 0;
          alias_account_number = remove_spaces number;
          alias_account_reference = text ref;
          nomba_transaction_id = nullable_text rt (text ("SIM-" <> ref_id));
          merchant_tx_ref = tx_ref;
          sender_name = nullable_text rt (text sender_name);
          sender_bank = nullable_text rt (text sender_bank);
          narration = nullable_text rt (text "Simulated transfer");
          raw_payload = build_nomba_payload rt ref_id number ref amount sender_name sender_bank;
        }))
        w (λ x. Answers (λ (p : Payment). p.amount ≡ rt.float amount) x.0) (λ a v e. refl)
        (λ x v e. tt)

  -- `float` gives no negative number for an amount that is not negative.
  module _ (float_lem : (d : Decimal) → pos 0 ≤ℤ d → pos 0 ≤ℤ rt.float d) where
    built_IsPositive :
        (ref_id number ref sender_name sender_bank : String) (amount : Decimal)
        → pos 0 ≤ℤ amount
        → IsPositive rt (build_nomba_payload rt ref_id number ref amount sender_name sender_bank)
    built_IsPositive ref_id number ref sender_name sender_bank amount h w request_id p read =
        let payload = build_nomba_payload rt ref_id number ref amount sender_name sender_bank in
        let same : p.amount ≡ rt.float amount =
          subst (Answers (λ (q : Payment). q.amount ≡ rt.float amount)) read
            (simulated_amount request_id ref_id number ref sender_name sender_bank amount w) in
        subst (λ d. pos 0 ≤ℤ d) (sym same) (float_lem amount h)

    simulated_IsPositive :
        (body : SimulateFunding) (o : Option DedicatedAccount) (request_id : String)
        → pos 0 ≤ℤ body.amount
        → IsPositive rt (simulated_payload memory rt body o request_id)
    unfolding simulated_payload
    simulated_IsPositive body none request_id h = built_IsPositive _ _ _ _ _ body.amount h
    simulated_IsPositive body (some a) request_id h = elim (Bool-cases body.misdirected) [
      | inl astray ↦ rw astray (built_IsPositive _ _ _ _ _ body.amount h)
      | inr sent ↦ rw sent (built_IsPositive _ _ _ _ _ body.amount h)
    ]

    pub simulate-Safe :
        (body : SimulateFunding)
        → pos 0 <ℤ body.amount
        → Safe Sound (simulate memory rt body) (λ _. Sound) Sound
    unfolding simulate get_by_number
    simulate-Safe body h = Safe-bind _ _ (Safe_of_keeps IsSound (search keeps_rules)) (λ o.
        Safe-bind _ _ (Safe_of_keeps IsSound (KeepsLedger-Reads (generate_reference-Reads rt)))
          (λ request_id.
            receive-Safe _ (simulated_IsPositive body o request_id (omega (arith, h)))))

  -- Where the body is read, the amount in it is not negative.
  pub nomba_webhook-Safe :
      (gate : Gate) (raw_body : String) (signature : Option String)
      → ((payload : Json) → gate.loads raw_body ≡ ok payload → IsPositive rt payload)
      → Safe Sound (nomba_webhook gate memory rt raw_body signature) (λ _. Sound) Sound
  unfolding nomba_webhook
  nomba_webhook-Safe gate raw_body signature positive =
      Safe-bind _ _ (Safe_of_keeps IsSound (search keeps_rules)) (λ valid.
        Safe-if (not valid) _ _ (λ _. Safe-raise _ (λ w h. h))
          (λ _.
            Safe-bind _ _
              (Safe-lift {Q = λ payload w. Sound w × (gate.loads raw_body ≡ ok payload)} _
                (λ payload w read h. (h, read)) (λ w h. h))
              (λ payload. record {
                at = λ w h. (receive-Safe payload (positive payload h.1)).at w h.0;
              })))

  pub run_nightly_reconciliation-Safe :
      (answer : Answer)
      → Safe Sound (run_nightly_reconciliation memory rt answer) (λ _. Sound) Sound
  run_nightly_reconciliation-Safe answer =
      Safe-always _ (λ w h. Sound-of_Unchanged (run_nightly_reconciliation-Unchanged rt answer w) h)
