-- ===== src/Reconciliation/Body.antt =====
-- The first part of `process_payment`: what it reads from the webhook body.
use ldb_backend_hack.Base.{pos, String, remove_spaces, Option, if◌then◌else◌}
use ldb_backend_hack.Json.{Json, null, number, text, object, end, truthy}
use ldb_backend_hack.Model.{Decimal}
use ldb_backend_hack.Action.{Action, Result, ok, raised, pure, lift, attribute_error, ◌>>=◌}
use ldb_backend_hack.Runtime.{Runtime, get_default, py_str, nullable_text, decimal_of}
use ldb_backend_hack.References.{generate_reference}

pub record Payment : Type 0 where
  pub request_id : String
  pub amount : Decimal
  pub fee : Decimal
  pub alias_account_number : String
  pub alias_account_reference : Json
  pub nomba_transaction_id : Option String
  pub merchant_tx_ref : String
  pub sender_name : Option String
  pub sender_bank : Option String
  pub narration : Option String
  pub raw_payload : Json

-- `(j or "").replace(" ", "")`; of the truthy values only a text has `replace`.
unfoldable pub account_number_of : Json → Result String
account_number_of (text s) = ok (remove_spaces s)
account_number_of j = if truthy j then raised attribute_error else ok ""

module _ (rt : Runtime) where
  -- `j or generate_reference()`
  unfoldable pub reference_or_new : Json → Action String
  reference_or_new j = if truthy j then pure (py_str rt j) else generate_reference rt

  unfoldable pub read_payment : String → Json → Action Payment
  read_payment request_id raw_payload = do
    body ← lift (get_default raw_payload "data" (object end))
    transaction ← lift (get_default body "transaction" (object end))
    customer ← lift (get_default body "customer" (object end))
    amount ← lift (get_default transaction "transactionAmount" (number (pos 0)))
    amount ← lift (decimal_of rt amount)
    fee ← lift (get_default transaction "fee" (number (pos 0)))
    fee ← lift (decimal_of rt fee)
    account_number ← lift (get_default transaction "aliasAccountNumber" null)
    account_number ← lift (account_number_of account_number)
    reference ← lift (get_default transaction "aliasAccountReference" null)
    nomba_transaction_id ← lift (get_default transaction "transactionId" null)
    tx_ref ← lift (get_default transaction "merchantTxRef" null)
    tx_ref ← reference_or_new tx_ref
    sender_name ← lift (get_default customer "senderName" null)
    sender_bank ← lift (get_default customer "bankName" null)
    narration ← lift (get_default transaction "narration" null)
    pure (record {
      request_id = request_id;
      amount = amount;
      fee = fee;
      alias_account_number = account_number;
      alias_account_reference = reference;
      nomba_transaction_id = nullable_text rt nomba_transaction_id;
      merchant_tx_ref = tx_ref;
      sender_name = nullable_text rt sender_name;
      sender_bank = nullable_text rt sender_bank;
      narration = nullable_text rt narration;
      raw_payload = raw_payload;
    })
