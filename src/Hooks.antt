-- ===== src/Hooks.antt =====
-- app/api/controller/hooks.py and app/integrations/nomba/webhook_verify.py: the endpoint that
-- Nomba calls, and the signature that opens it.
pub mod Signed
use ldb_backend_hack.Base.{
  ℕ, String, ◌==◌, string_eq, Bool, true, false, ◌||◌, not, Option, none, some, if◌then◌else◌,
}
use ldb_backend_hack.Json.{Json}
use ldb_backend_hack.Action.{Action, Result, ok, raised, pure, raise, lift, error_response, ◌>>=◌}
use ldb_backend_hack.Orm.{Orm}
use ldb_backend_hack.Runtime.{Runtime}
use ldb_backend_hack.Webhooks.{Receipt, receive}

-- What the endpoint takes from outside.
pub record Gate : Type 0 where
  -- `settings.NOMBA_WEBHOOK_SECRET`
  pub secret : String
  -- The Base64 text of the HMAC-SHA256 of a body under a secret.
  pub digest : String → String → String
  -- `hmac.compare_digest`, which raises a `TypeError` on texts that are not ASCII
  pub compare_digest : String → String → Result Bool
  -- `json.loads`
  pub loads : String → Result Json

module _ (gate : Gate) where
  unfoldable pub verify_nomba_signature : String → Option String → Result Bool
  verify_nomba_signature raw_body none = ok false
  verify_nomba_signature raw_body (some signature) =
      if signature == "" || gate.secret == ""
      then ok false
      else gate.compare_digest (gate.digest gate.secret raw_body) signature

  unfoldable pub nomba_webhook : Orm → Runtime → String → Option String → Action Receipt
  nomba_webhook orm rt raw_body nomba_signature = do
    valid ← lift (verify_nomba_signature raw_body nomba_signature)
    if not valid
        then raise (error_response 401 "Invalid webhook signature" none)
        else do payload ← lift (gate.loads raw_body); receive orm rt payload
