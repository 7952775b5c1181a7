-- ===== src/Handlers.antt =====
-- app/error_handlers.py with the envelopes of app/utils/response_formatter.py: how a call of a
-- service is answered. Each exception class has its handler, and `Exception` has the last one.
use ldb_backend_hack.Base.{ℕ, String, ◌<>◌, Option, none, some, List, map}
use ldb_backend_hack.Action.{
  Exception, error_response, rate_limit_error_response, http_exception, request_validation_error,
  Result, ok, raised,
}

-- The failure envelope; `status_code` is also that of the response.
pub record Failure : Type 0 where
  pub status_code : ℕ
  pub message : String
  pub errors : Option (List String)

-- `api_error_response_handler` and `rate_limit_error_response_handler`
unfoldable pub api_error_response_handler : ℕ → String → Option (List String) → Failure
api_error_response_handler status message errors = record {
  status_code = status;
  message = message;
  errors = errors;
}

unfoldable pub http_error_response_handler : ℕ → String → Failure
http_error_response_handler status detail = record {
  status_code = status;
  message = detail;
  errors = none;
}

-- `f"{err['loc'][-1]} {err['msg']}"` for each error
unfoldable pub validation_error_response_handler : List (String × String) → Failure
validation_error_response_handler errors = record {
  status_code = 422;
  message = "Validation Errors";
  errors = some (map (λ e. e.0 <> " " <> e.1) errors);
}

unfoldable pub internal_server_error_response_handler : Exception → Failure
internal_server_error_response_handler e = record {
  status_code = 500;
  message = "Something went wrong on our end. Please try again later";
  errors = none;
}

-- The handler that is registered for the class of the exception.
unfoldable pub handle : Exception → Failure
handle (error_response status message errors) = api_error_response_handler status message errors
handle (rate_limit_error_response status message errors) =
    api_error_response_handler status message errors
handle (http_exception status detail) = http_error_response_handler status detail
handle (request_validation_error errors) = validation_error_response_handler errors
handle e = internal_server_error_response_handler e

-- `success_response(...)`, or the envelope of the handler.
pub data Response (A : Type 0) : Type 0 where
  success : ℕ → A → Response A
  failure : Failure → Response A

-- A route with the status code of its success.
unfoldable pub respond : {A : Type 0} → ℕ → Result A → Response A
unfolding handle
respond code (ok a) = success code a
respond code (raised e) = failure (handle e)

unfoldable pub code_of : {A : Type 0} → Response A → ℕ
code_of (success code a) = code
code_of (failure f) = f.status_code
