-- ===== src/Reconciliation/Keys.antt =====
-- The keys of the webhook body from which `process_payment` takes a payment.
use ldb_backend_hack.Base.{◌≡◌, refl, ap, ◌∙◌, pos, String}
use ldb_backend_hack.Json.{Json, null, number, object, end}
use ldb_backend_hack.Model.{World, Decimal}
use ldb_backend_hack.Action.{Action, Result, ok, lift, ◌>>=◌}
use ldb_backend_hack.Action.Steps.{bind-eq-ok}
use ldb_backend_hack.Action.Hoare.{Hoare, Hoare-bind, Hoare-pure, Hoare-any}
use ldb_backend_hack.Runtime.{Runtime, get_default, decimal_of}
use ldb_backend_hack.Reconciliation.{Payment, read_payment, account_number_of}

-- The decimal number under the key, which is 0 where there is none.
abbrev pub IsDecimalAt : Runtime → Json → String → Decimal → Type 0
IsDecimalAt rt j key d =
    (found : Json) × (get_default j key (number (pos 0)) ≡ ok found) × (decimal_of rt found ≡ ok d)

-- The amounts, the reference of the account and its number stand in `data.transaction` of the body.
pub record IsRead (rt : Runtime) (request_id : String) (payload : Json) (p : Payment) : Type 0 where
  pub body : Json
  pub transaction : Json
  pub number_given : Json
  pub in_payload : get_default payload "data" (object end) ≡ ok body
  pub in_body : get_default body "transaction" (object end) ≡ ok transaction
  pub request : p.request_id ≡ request_id
  pub raw : p.raw_payload ≡ payload
  pub amount : IsDecimalAt rt transaction "transactionAmount" p.amount
  pub fee : IsDecimalAt rt transaction "fee" p.fee
  pub number_at : get_default transaction "aliasAccountNumber" null ≡ ok number_given
  pub alias_number : account_number_of number_given ≡ ok p.alias_account_number
  pub alias_reference :
      get_default transaction "aliasAccountReference" null ≡ ok p.alias_account_reference

module _ {A B : Type 0} {P : World → Type 0} {Q : B → World → Type 0} where
  -- What was computed is known afterwards.
  Hoare-given :
      (r : Result A) (f : A → Action B)
      → ((a : A) → r ≡ ok a → Hoare P (f a) Q)
      → Hoare P (lift r >>= f) Q
  unfolding lift
  Hoare-given r f k = record {
    gives = λ w w' b h e.
        let (a, v, e₁, e₂) = bind-eq-ok (lift r) f e in
        (k a (ap (λ (x : Result A × World). x.0) e₁)).gives w w' b h
          (ap (f a) (ap (λ (x : Result A × World). x.1) e₁) ∙ e₂);
  }

module _ (rt : Runtime) (request_id : String) (payload : Json) where
  pub read_payment-IsRead :
      Hoare
        (λ w. Unit {0})
        (read_payment rt request_id payload)
        (λ p w. IsRead rt request_id payload p)
  unfolding read_payment
  read_payment-IsRead = Hoare-given _ _ λ body in_payload. Hoare-given _ _ λ transaction in_body.
      Hoare-given _ _ λ customer c. Hoare-given _ _ λ amount_json amount_at.
        Hoare-given _ _ λ amount amount_is. Hoare-given _ _ λ fee_json fee_at.
          Hoare-given _ _ λ fee fee_is. Hoare-given _ _ λ number_given number_at.
            Hoare-given _ _ λ alias_number alias_is. Hoare-given _ _ λ reference reference_at.
              Hoare-given _ _ λ tx_id t. Hoare-given _ _ λ tx_ref r.
                Hoare-bind _ _ (Hoare-any _) λ merchant_ref. Hoare-given _ _ λ sender s.
                  Hoare-given _ _ λ bank b. Hoare-given _ _ λ narration n.
                    Hoare-pure _ (λ p w. IsRead rt request_id payload p)
                      (λ w h. record {
                        body = body;
                        transaction = transaction;
                        number_given = number_given;
                        in_payload = in_payload;
                        in_body = in_body;
                        request = refl;
                        raw = refl;
                        amount = (amount_json, amount_at, amount_is);
                        fee = (fee_json, fee_at, fee_is);
                        number_at = number_at;
                        alias_number = alias_is;
                        alias_reference = reference_at;
                      })
