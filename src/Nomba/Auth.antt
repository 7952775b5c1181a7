-- ===== src/Nomba/Auth.antt =====
-- app/integrations/nomba/auth.py: the access token of Nomba's API and its cache.
use ldb_backend_hack.Base.{
  ℕ, ◌+◌, ◌≡◌, String, ◌==◌, string_eq, ◌<>◌, ◌||◌, not, true, Option, none, some, ◌⊎◌, ltb,
  if◌then◌else◌,
}
use ldb_backend_hack.Json.{Json, null, text, object, end, truthy}
use ldb_backend_hack.Action.{Result, ok, raised, runtime_error}
use ldb_backend_hack.Constants.{nomba_token_ttl_seconds}
use ldb_backend_hack.Runtime.{Runtime, get_default, py_str}
use ldb_backend_hack.Nomba.{
  Answer, responded, status_error, http_error, broken, NombaResult, failed_with,
}

-- What the service uses of Redis, under its one key. Times are in seconds.
pub record Redis (Store : Type 0) : Type 0 where
  -- `redis.get(key)` at a time
  pub get : ℕ → Store → Result (Option String)
  -- `redis.setex(key, ttl, value)` at a time
  pub setex : ℕ → ℕ → Json → Store → Result (Unit {0}) × Store
  -- The text as which a value is stored.
  pub encode : Json → String
  -- What is stored, with the time at which it expires.
  pub content : Store → Option (String × ℕ)

-- The documented behaviour of these commands, where they fail too.
abbrev pub live : ℕ → Option (String × ℕ) → Option String
live now none = none
live now (some (value, expires)) = if ltb now expires then some value else none

pub record IsRedis {Store : Type 0} (redis : Redis Store) : Type 0 where
  pub get_lem :
      (now : ℕ) (s : Store) (o : Option String)
      → redis.get now s ≡ ok o
      → o ≡ live now (redis.content s)
  pub setex_lem :
      (now ttl : ℕ) (value : Json) (s : Store)
      → (redis.content (redis.setex now ttl value s).1 ≡ some (redis.encode value, now + ttl))
        ⊎ (redis.content (redis.setex now ttl value s).1 ≡ redis.content s)
  pub encode_lem : (t : String) → redis.encode (text t) ≡ t

-- app/settings.py, as far as the login goes.
pub record Credentials : Type 0 where
  pub nomba_client_id : String
  pub nomba_client_secret : String
  pub nomba_account_id : String

abbrev and_then : {A B : Type 0} → Result A → (A → Result B) → Result B
and_then (ok a) f = f a
and_then (raised e) f = raised e

-- `body.get("data", {}).get("access_token") or body.get("access_token")`
unfoldable pub token_of : Json → Result Json
token_of body = and_then (get_default body "data" (object end)) (λ inner.
    and_then (get_default inner "access_token" null)
      (λ token. if truthy token then ok token else get_default body "access_token" null))

-- The dict for a token.
abbrev pub granted : ℕ → Json → NombaResult
granted code token = record { success = true; body = token; status_code = code; message = "" }

module _ {Store : Type 0} (redis : Redis Store) where
  -- From the test `if not token` on; whether the cache could be written does not matter.
  unfoldable pub cache_token : ℕ → ℕ → Json → Store → NombaResult × Store
  cache_token now code token s =
      if not (truthy token)
      then (failed_with code "Nomba token response missing access_token", s)
      else (granted code token, (redis.setex now nomba_token_ttl_seconds token s).1)

  -- From the reading of the token on.
  unfoldable pub take_token : ℕ → ℕ → Result Json → Store → Result NombaResult × Store
  take_token now code (raised e) s = (raised e, s)
  take_token now code (ok token) s =
      let (result, s') = cache_token now code token s in (ok result, s')

  -- The outer `try` statement: what the call of Nomba answers, and how it is taken.
  unfoldable pub issue_token : ℕ → Answer → Store → Result NombaResult × Store
  issue_token now (responded code body) s = take_token now code (token_of body) s
  issue_token now (status_error code message) s = (ok (failed_with code message), s)
  issue_token now (http_error message) s = (ok (failed_with 502 message), s)
  issue_token now (broken e) s = (raised e, s)

  -- From the test on the credentials on.
  unfoldable pub fresh_token : Credentials → ℕ → Answer → Store → Result NombaResult × Store
  fresh_token credentials now answer s =
      if credentials.nomba_client_id == "" || credentials.nomba_client_secret == ""
      then (ok (failed_with 503 "Nomba credentials are not configured"), s)
      else issue_token now answer s

  -- From the test `if cached` on; a read that fails is logged.
  unfoldable pub after_cache :
      Credentials → ℕ → Answer → Store → Result (Option String) → Result NombaResult × Store
  after_cache credentials now answer s (ok (some cached)) =
      if not (cached == "")
      then (ok (granted 200 (text cached)), s)
      else fresh_token credentials now answer s
  after_cache credentials now answer s result = fresh_token credentials now answer s

  -- `get_access_token` at a time; `answer` is how a call of Nomba ends, where one is made.
  unfoldable pub get_access_token : Credentials → ℕ → Answer → Store → Result NombaResult × Store
  get_access_token credentials now answer s = after_cache credentials now answer s (redis.get now s)

-- The headers, less the constant content type.
pub record Headers : Type 0 where
  pub authorization : String
  pub account_id : Option String

-- `_auth_headers`, from the token result on.
unfoldable pub headers_of : Runtime → Credentials → NombaResult → Result Headers
headers_of rt credentials token_result =
    if not token_result.success
    then raised (runtime_error token_result.message)
    else ok (record {
      authorization = "Bearer " <> py_str rt token_result.body;
      account_id =
          if not (credentials.nomba_account_id == "")
          then some credentials.nomba_account_id
          else none;
    })

module _ {Store : Type 0} (redis : Redis Store) where
  unfoldable pub auth_headers : Runtime → Credentials → ℕ → Answer → Store → Result Headers × Store
  auth_headers rt credentials now answer s =
      let (result, s') = get_access_token redis credentials now answer s in
      (and_then result (headers_of rt credentials), s')

-- The `try` statements of the clients: a login that raises ends the call.
unfoldable pub with_login : Result Headers → (Headers → Answer) → Answer
with_login (ok headers) call = call headers
with_login (raised e) call = broken e
