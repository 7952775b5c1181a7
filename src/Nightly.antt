-- ===== src/Nightly.antt =====
-- app/jobs/nightly_reconciliation.py: the nightly walk over Nomba's transactions.
pub mod Checks
pub mod Run
pub mod Search
pub mod Walk
use ldb_backend_hack.Base.{
  ℕ, ◌+◌, String, ◌==◌, string_eq, option_eq, ◌&&◌, not, Option, none, some, if◌then◌else◌,
}
use ldb_backend_hack.Json.{
  Json, null, text, array, object, Items, nil, cons, field, end, truthy, or_json,
}
use ldb_backend_hack.Model.{Transaction}
use ldb_backend_hack.Action.{Action, pure, lift, ask, ◌>>=◌, ◌>>◌}
use ldb_backend_hack.Constants.{reconciliation_safety_net_match}
use ldb_backend_hack.Orm.{Orm}
use ldb_backend_hack.Runtime.{Runtime, get_default, py_str, uuid4, clock}
use ldb_backend_hack.Tables.{create_reconciliation_log}
use ldb_backend_hack.Nomba.{Answer, NombaResult, list_nomba_transactions}

-- The two counters of the job.
pub record Tally : Type 0 where
  pub matched : ℕ
  pub missing : ℕ

-- `nomba_items.get("results") or nomba_items.get("items") or []`, where the data is a dict
unfoldable pub items_of : Json → Action Json
items_of (object fields) = do
  results ← lift (get_default (object fields) "results" null)
  items ← lift (get_default (object fields) "items" null)
  pure (or_json (or_json results items) (array nil))
items_of j = pure j

module _ (orm : Orm) (rt : Runtime) where
  -- `Transaction.get_or_none(nomba_transaction_id=...)`
  unfoldable pub by_transaction_id : Json → Action (Option Transaction)
  by_transaction_id id = ask (λ w.
      orm.get_or_none Transaction (λ t. t.nomba_transaction_id == some (py_str rt id))
        w.transactions)

  -- `Transaction.get_or_none(merchant_tx_ref=...)`
  unfoldable pub by_merchant_tx_ref : Json → Action (Option Transaction)
  by_merchant_tx_ref ref = ask (λ w.
      orm.get_or_none Transaction (λ t. t.merchant_tx_ref == some (py_str rt ref)) w.transactions)

  -- The test `if local_tx is None and merchant_tx_ref`.
  unfoldable pub or_by_ref : Json → Option Transaction → Action (Option Transaction)
  or_by_ref ref (some t) = pure (some t)
  or_by_ref ref none = if truthy ref then by_merchant_tx_ref ref else pure none

  unfoldable pub find_local : Json → Json → Action (Option Transaction)
  find_local id ref = do
    found ← if truthy id then by_transaction_id id else pure none
    or_by_ref ref found

  -- From the test `if local_tx is None` on.
  unfoldable pub note_item : Json → Tally → Option Transaction → Action Tally
  note_item id tally none = pure (record tally { missing = tally.missing + 1 })
  note_item id tally (some local_tx) = do
    log_id ← uuid4 rt
    t ← clock rt
    create_reconciliation_log orm (record {
      id = log_id;
      transaction_id = local_tx.id;
      expected_amount = some local_tx.amount;
      received_amount = local_tx.amount;
      decision = reconciliation_safety_net_match;
      details =
          object (field "nomba_transaction_id" id (field "checked_at" (text (rt.isoformat t)) end));
      created_at = t;
    })
    pure (record tally { matched = tally.matched + 1 })

  -- The body of the loop for a dict.
  unfoldable pub check_dict : Json → Tally → Action Tally
  check_dict item tally = do
    first ← lift (get_default item "transactionId" null)
    second ← lift (get_default item "id" null)
    ref ← lift (get_default item "merchantTxRef" null)
    let id = or_json first second
    if not (truthy id) && not (truthy ref)
        then pure tally
        else find_local id ref >>= note_item id tally

  unfoldable pub check_item : Json → Tally → Action Tally
  check_item (object fields) tally = check_dict (object fields) tally
  check_item item tally = pure tally

  -- The loop.
  unfoldable pub check_items : Items → Tally → Action Tally
  check_items nil tally = pure tally
  check_items (cons item rest) tally = check_item item tally >>= check_items rest

  -- From the test `if not isinstance(nomba_items, list)` on; `none` where the job is skipped.
  unfoldable pub check_all : Json → Action (Option Tally)
  check_all (array items) = do
    tally ← check_items items (record { matched = 0; missing = 0 })
    pure (some tally)
  check_all j = pure none

  unfoldable pub after_fetch : NombaResult → Action (Option Tally)
  after_fetch result = if not result.success then pure none else items_of result.body >>= check_all

  -- `run_nightly_reconciliation`; `nomba_list` is how the HTTP call ends.
  unfoldable pub run_nightly_reconciliation : Answer → Action (Option Tally)
  run_nightly_reconciliation nomba_list = list_nomba_transactions nomba_list >>= after_fetch
