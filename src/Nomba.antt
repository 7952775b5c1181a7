-- ===== src/Nomba.antt =====
-- app/integrations/nomba/virtual_account.py and app/integrations/nomba/transactions.py: what these
-- clients make of the answers of Nomba's API.
pub mod Auth
pub mod Tokens
use ldb_backend_hack.Base.{ℕ, String, Bool, true, false}
use ldb_backend_hack.Json.{Json, null}
use ldb_backend_hack.Action.{Action, Exception, pure, raise, lift, ◌>>=◌}
use ldb_backend_hack.Runtime.{get_default}

-- How the calls in one `try` statement end, the login included.
pub data Answer : Type 0 where
  -- a response that is no error, with its status code and JSON body
  responded : ℕ → Json → Answer
  -- an `httpx.HTTPStatusError`, with the status code and the text of the response
  status_error : ℕ → String → Answer
  -- any other `httpx.HTTPError`
  http_error : String → Answer
  -- any other exception, such as the `RuntimeError` of a failed login
  broken : Exception → Answer

-- The dict that both calls return.
pub record NombaResult : Type 0 where
  pub success : Bool
  pub body : Json
  pub status_code : ℕ
  pub message : String

abbrev pub failed_with : ℕ → String → NombaResult
failed_with code message = record {
  success = false;
  body = null;
  status_code = code;
  message = message;
}

-- `NombaVirtualAccountService.create`; its log line reads the account number from the data.
unfoldable pub create_virtual_account : Answer → Action NombaResult
create_virtual_account (responded code body) = do
  found ← lift (get_default body "data" body)
  logged ← lift (get_default found "accountNumber" null)
  pure (record { success = true; body = found; status_code = code; message = "" })
create_virtual_account (status_error code message) = pure (failed_with code message)
create_virtual_account (http_error message) = pure (failed_with 502 message)
create_virtual_account (broken e) = raise e

unfoldable pub update_account_name : Answer → Action NombaResult
update_account_name (responded code body) = do
  found ← lift (get_default body "data" body)
  pure (record { success = true; body = found; status_code = code; message = "" })
update_account_name (status_error code message) = pure (failed_with code message)
update_account_name (http_error message) = pure (failed_with 502 message)
update_account_name (broken e) = raise e

-- `NombaTransactionService.list_transactions`
unfoldable pub list_nomba_transactions : Answer → Action NombaResult
list_nomba_transactions (responded code body) = do
  found ← lift (get_default body "data" body)
  pure (record { success = true; body = found; status_code = code; message = "" })
list_nomba_transactions (status_error code message) = pure (failed_with code message)
list_nomba_transactions (http_error message) = pure (failed_with 502 message)
list_nomba_transactions (broken e) = raise e
