-- ===== src/Reconciliation/Reading.antt =====
-- The part of `process_payment` that reads the webhook body, against the tables.
use ldb_backend_hack.Base.{◌≡◌, refl, String}
use ldb_backend_hack.Json.{Json, truthy}
use ldb_backend_hack.Action.Reads.{
  Reads, Anything, Reads-weaken, Reads-pure, Reads-if, Reads-lift, Reads-bind,
}
use ldb_backend_hack.Runtime.{Runtime}
use ldb_backend_hack.References.Draws.{generate_reference-Reads}
use ldb_backend_hack.Reconciliation.{read_payment, reference_or_new}

module _ (rt : Runtime) where
  reference_or_new-Reads : (j : Json) → Reads Anything (reference_or_new rt j)
  unfolding reference_or_new
  reference_or_new-Reads j =
      Reads-if (truthy j) _ _ (Reads-pure _ tt) (Reads-weaken (generate_reference-Reads rt))

  pub read_payment-Reads :
      (request_id : String) (payload : Json)
      → Reads
          (λ p. (p.request_id ≡ request_id) × (p.raw_payload ≡ payload))
          (read_payment rt request_id payload)
  unfolding read_payment
  read_payment-Reads request_id payload = Reads-bind _ _ (Reads-lift _) λ body.
      Reads-bind _ _ (Reads-lift _) λ transaction. Reads-bind _ _ (Reads-lift _) λ customer.
        Reads-bind _ _ (Reads-lift _) λ amount. Reads-bind _ _ (Reads-lift _) λ amount.
          Reads-bind _ _ (Reads-lift _) λ fee. Reads-bind _ _ (Reads-lift _) λ fee.
            Reads-bind _ _ (Reads-lift _) λ account_number.
              Reads-bind _ _ (Reads-lift _) λ account_number.
                Reads-bind _ _ (Reads-lift _) λ reference.
                  Reads-bind _ _ (Reads-lift _) λ nomba_transaction_id.
                    Reads-bind _ _ (Reads-lift _) λ tx_ref.
                      Reads-bind _ _ (reference_or_new-Reads tx_ref) λ tx_ref.
                        Reads-bind _ _ (Reads-lift _) λ sender_name.
                          Reads-bind _ _ (Reads-lift _) λ sender_bank.
                            Reads-bind _ _ (Reads-lift _) λ narration. Reads-pure _ (refl, refl)
