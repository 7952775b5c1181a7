-- ===== src/Tests/Tokens.antt =====
-- The token cache on a Redis in memory.
use ldb_backend_hack.Base.{
  ℕ, ◌+◌, ◌≡◌, refl, String, string_eq, Option, none, some, inl, sym, arith,
}
use ldb_backend_hack.Json.{Json, text, object, field, end, lookup, truthy}
use ldb_backend_hack.Action.{ok}
use ldb_backend_hack.Action.Steps.{ok_injective}
use ldb_backend_hack.Runtime.{get_default}
use ldb_backend_hack.Nomba.{Answer, responded}
use ldb_backend_hack.Nomba.Auth.{
  Redis, IsRedis, live, Credentials, token_of, granted, cache_token, take_token, issue_token,
  fresh_token, after_cache, get_access_token,
}
use ldb_backend_hack.Nomba.Tokens.{
  Calls, first, call, IsRecent, Issues, get_access_token-IsRecent, get_access_token_available,
  IsHandedOut, usable,
}

abbrev sample_encode : Json → String
sample_encode (text t) = t
sample_encode j = "json"

abbrev sample_redis : Redis (Option (String × ℕ))
sample_redis = record {
  get = λ now s. ok (live now s);
  setex = λ now ttl value s. (ok tt, some (sample_encode value, now + ttl));
  encode = sample_encode;
  content = λ s. s;
}

sample_IsRedis : IsRedis sample_redis
sample_IsRedis = record {
  get_lem = λ now s o e. ok_injective (sym e);
  setex_lem = λ now ttl value s. inl refl;
  encode_lem = λ t. refl;
}

abbrev sample_credentials : Credentials
sample_credentials = record {
  nomba_client_id = "id";
  nomba_client_secret = "secret";
  nomba_account_id = "";
}

abbrev sample_issue : ℕ → Answer
sample_issue now =
    responded 200 (object (field "data" (object (field "access_token" (text "T-1") end)) end))

abbrev cached : Option (String × ℕ)
cached = some ("T-1", 3310)

sample_Calls : Calls sample_redis sample_credentials sample_issue 10 cached
unfolding get_access_token after_cache fresh_token issue_token take_token cache_token token_of
    get_default lookup truthy string_eq
sample_Calls = call (first none refl) 10 (omega arith)

sample_call :
    get_access_token sample_redis sample_credentials 100 (sample_issue 100) cached
    ≡ (ok (granted 200 (text "T-1")), cached)
unfolding get_access_token after_cache string_eq
sample_call = refl

get_access_token-IsRecent_example :
    IsRecent sample_redis sample_credentials sample_issue 100 (granted 200 (text "T-1"))
get_access_token-IsRecent_example =
    get_access_token-IsRecent sample_redis sample_IsRedis sample_credentials sample_issue 10 100
      cached cached (granted 200 (text "T-1")) sample_Calls (omega arith) sample_call refl

sample_Issues : Issues (sample_issue 0) (text "T-1")
unfolding token_of get_default lookup truthy string_eq
sample_Issues = (refl, refl)

get_access_token_available_example :
    IsHandedOut sample_redis 0
      (sample_issue 0)
      (text "T-1")
      none
      (usable (sample_redis.get 0 none))
      (get_access_token sample_redis sample_credentials 0 (sample_issue 0) none)
unfolding string_eq
get_access_token_available_example =
    get_access_token_available sample_redis sample_credentials 0 (sample_issue 0) (text "T-1") none
      sample_Issues refl refl
