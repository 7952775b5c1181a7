-- ===== src/Webhooks/Simulated.antt =====
-- A simulated payload, and what the reconciliation reads out of it.
use ldb_backend_hack.Base.{
  ◌≡◌, refl, pos, ◌==◌, string_eq, remove_spaces, String, false, some, ◌<>◌,
}
use ldb_backend_hack.Json.{text, truthy, lookup}
use ldb_backend_hack.Model.{World, Decimal}
use ldb_backend_hack.Action.{ok, pure, lift, ◌>>=◌}
use ldb_backend_hack.Runtime.{Runtime, get_default, py_str, nullable_text, decimal_of}
use ldb_backend_hack.Reconciliation.{read_payment, reference_or_new, account_number_of}
use ldb_backend_hack.Webhooks.{build_nomba_payload}

-- A payload that `_build_nomba_payload` makes for a request id that is not empty is read back by
-- the reconciliation: the amount as the float that was written, no fee, the account number without
-- spaces, the reference as given, and the request id as the merchant's reference, with nothing
-- drawn and nothing changed.
pub read_payment-build_nomba_payload :
    (rt : Runtime) (request_id number ref sender_name sender_bank : String) (amount : Decimal)
    (w : World)
    → (request_id == "") ≡ false
    → let payload = build_nomba_payload rt request_id number ref amount sender_name sender_bank in
      read_payment rt request_id payload w ≡ (
        ok (record {
          request_id = request_id;
          amount = rt.float amount;
          fee = pos 0;
          alias_account_number = remove_spaces number;
          alias_account_reference = text ref;
          nomba_transaction_id = some ("SIM-" <> request_id);
          merchant_tx_ref = request_id;
          sender_name = some sender_name;
          sender_bank = some sender_bank;
          narration = some "Simulated transfer";
          raw_payload = payload;
        }),
        w,
      )
unfolding read_payment build_nomba_payload get_default lookup string_eq decimal_of account_number_of
    reference_or_new truthy py_str nullable_text ◌>>=◌ pure lift
read_payment-build_nomba_payload rt request_id number ref sender_name sender_bank amount w given =
    rw given refl
