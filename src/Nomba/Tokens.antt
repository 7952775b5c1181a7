-- ===== src/Nomba/Tokens.antt =====
-- Where the tokens come from that `get_access_token` hands out, and how old they are.
use ldb_backend_hack.Base.{
  ℕ, ◌+◌, ◌≤◌, ◌<◌, ◌≡◌, refl, sym, ap, ◌∙◌, subst, String, ◌==◌, string_eq, ◌||◌, true, false,
  Option, none, some, ltb, if◌then◌else◌, inl, inr, Bool-cases, arith,
}
use mathlib.Core.Bool.{true≢false}
use mathlib.Core.Option.{some-injective}
use ldb_backend_hack.Json.{Json, text, truthy}
use ldb_backend_hack.Action.{Result, ok, raised}
use ldb_backend_hack.Constants.{nomba_token_ttl_seconds}
use ldb_backend_hack.Nomba.{
  Answer, responded, status_error, http_error, broken, NombaResult, failed_with,
}
use ldb_backend_hack.Nomba.Auth.{
  Redis, IsRedis, live, Credentials, token_of, granted, cache_token, take_token, issue_token,
  after_cache, fresh_token, get_access_token,
}

-- Nomba's answer has the token.
abbrev pub Issues : Answer → Json → Type 0
Issues (responded code body) token = (token_of body ≡ ok token) × (truthy token ≡ true)
Issues answer token = ⊥

some_ne_none : {A : Type 0} (a : A) → some a ≡ none → ⊥
some_ne_none a e = cc

module _ {Store : Type 0} (redis : Redis Store) (credentials : Credentials)
    (nomba : ℕ → Answer) where
  -- The calls of `get_access_token` one after the other, from an empty cache on; `nomba` is what
  -- Nomba would answer at each time.
  pub data Calls : ℕ → Store → Type 0 where
    first : (s : Store) → redis.content s ≡ none → Calls 0 s
    call :
        {before : ℕ} {s : Store}
        → Calls before s
        → (now : ℕ) → before ≤ now
        → Calls now (get_access_token redis credentials now (nomba now) s).1

  -- What the cache holds was issued by Nomba, and expires 3300 seconds later.
  IsCache : ℕ → Option (String × ℕ) → Type 0
  IsCache now none = Unit
  IsCache now (some (value, expires)) =
      (u : ℕ) × (token : Json) × (u ≤ now)
      × (expires ≡ u + nomba_token_ttl_seconds)
      × (redis.encode token ≡ value)
      × Issues (nomba u) token

  -- A token that is handed out is one that Nomba issued less than 3300 seconds ago.
  abbrev pub IsRecent : ℕ → NombaResult → Type 0
  IsRecent now result =
      (u : ℕ) × (token : Json) × (u ≤ now)
      × (now < u + nomba_token_ttl_seconds)
      × (redis.encode result.body ≡ redis.encode token)
      × Issues (nomba u) token

  Granted : ℕ → Result NombaResult → Type 0
  Granted now (ok result) = result.success ≡ true → IsRecent now result
  Granted now (raised e) = Unit

  abbrev Outcome : ℕ → Result NombaResult × Store → Type 0
  Outcome now (result, s) = IsCache now (redis.content s) × Granted now result

  later : (now now' : ℕ) (o : Option (String × ℕ)) → now ≤ now' → IsCache now o → IsCache now' o
  unfolding IsCache
  later now now' none h k = tt
  later now now' (some (value, expires)) h (u, token, past, expiry, same, from) =
      (u, token, omega (arith, h, past), expiry, same, from)

  module _ (laws : IsRedis redis) (now : ℕ) (s : Store) (kept : IsCache now (redis.content s)) where
    refused : (r : NombaResult) → r.success ≡ false → Outcome now (ok r, s)
    unfolding Granted
    refused r h = (kept, λ success. absurd (true≢false (sym success ∙ h)))

    issued :
        (code : ℕ) (body token : Json)
        → nomba now ≡ responded code body
        → token_of body ≡ ok token
        → let (r, s') = cache_token redis now code token s in Outcome now (ok r, s')
    unfolding cache_token Granted IsCache
    issued code body token answered read = elim (Bool-cases (truthy token)) [
      | inr empty ↦
          rw empty (refused (failed_with code "Nomba token response missing access_token") refl)
      | inl given ↦
          let issues : Issues (nomba now) token =
            subst (λ a. Issues a token) (sym answered) (read, given) in
          rw given (
            elim (laws.setex_lem now nomba_token_ttl_seconds token s) [
              | inl written ↦
                  subst (IsCache now) (sym written) (now, token, omega arith, refl, refl, issues)
              | inr lost ↦ subst (IsCache now) (sym lost) kept
            ],
            λ success. (now, token, omega arith, omega arith, refl, issues),
          )
    ]

    take_token-Outcome :
        (code : ℕ) (body : Json) (r : Result Json)
        → nomba now ≡ responded code body
        → token_of body ≡ r
        → Outcome now (take_token redis now code r s)
    unfolding take_token Granted
    take_token-Outcome code body (ok token) answered read = issued code body token answered read
    take_token-Outcome code body (raised e) answered read = (kept, tt)

    issue_token-Outcome :
        (answer : Answer) → nomba now ≡ answer → Outcome now (issue_token redis now answer s)
    unfolding issue_token Granted
    issue_token-Outcome (responded code body) answered =
        take_token-Outcome code body (token_of body) answered refl
    issue_token-Outcome (status_error code message) answered =
        refused (failed_with code message) refl
    issue_token-Outcome (http_error message) answered = refused (failed_with 502 message) refl
    issue_token-Outcome (broken e) answered = (kept, tt)

    fresh_token-Outcome : Outcome now (fresh_token redis credentials now (nomba now) s)
    unfolding fresh_token
    fresh_token-Outcome =
        elim (Bool-cases
          (credentials.nomba_client_id == "" || credentials.nomba_client_secret == "")) [
            | inl missing ↦
                rw missing (refused (failed_with 503 "Nomba credentials are not configured") refl)
            | inr set ↦ rw set (issue_token-Outcome (nomba now) refl)
          ]

    -- A value that `get` yields is in the cache and has not expired.
    cached_IsRecent :
        (value : String) (o : Option (String × ℕ))
        → IsCache now o
        → some value ≡ live now o
        → IsRecent now (granted 200 (text value))
    unfolding IsCache
    cached_IsRecent value none h e = absurd (some_ne_none value e)
    cached_IsRecent value (some (v, expires)) (u, token, past, expiry, same, from) e =
        elim (Bool-cases (ltb now expires)) [
          | inr over ↦ absurd (some_ne_none value (rw over at e))
          | inl alive ↦
              let found : value ≡ v = some-injective value v (rw alive at e) in
              (
                u,
                token,
                past,
                ground (arith, alive, expiry),
                laws.encode_lem value ∙ found ∙ sym same,
                from,
              )
        ]

    after_cache-Outcome :
        (r : Result (Option String))
        → redis.get now s ≡ r
        → Outcome now (after_cache redis credentials now (nomba now) s r)
    unfolding after_cache Granted
    after_cache-Outcome (raised e) read = fresh_token-Outcome
    after_cache-Outcome (ok none) read = fresh_token-Outcome
    after_cache-Outcome (ok (some value)) read = elim (Bool-cases (value == "")) [
      | inl empty ↦ rw empty fresh_token-Outcome
      | inr given ↦ rw given (
        kept,
        λ success.
            cached_IsRecent value (redis.content s) kept (laws.get_lem now s (some value) read),
      )
    ]

    get_access_token-Outcome : Outcome now (get_access_token redis credentials now (nomba now) s)
    unfolding get_access_token
    get_access_token-Outcome = after_cache-Outcome (redis.get now s) refl

  Calls-IsCache :
      (laws : IsRedis redis) (now : ℕ) (s : Store) → Calls now s → IsCache now (redis.content s)
  unfolding IsCache
  Calls-IsCache laws now s (first s' empty) = subst (IsCache 0) (sym empty) tt
  Calls-IsCache laws now s' (call {before} {s} calls now' h) =
      (get_access_token-Outcome laws now' s
        (later before now' (redis.content s) h (Calls-IsCache laws before s calls))).0

-- Whatever Redis and Nomba answer, failures included, a token that `get_access_token` hands out in
-- a sequence of calls is one that Nomba issued at a time that is no later than the call and less
-- than 3300 seconds before it, up to the text as which Redis stores it.
pub get_access_token-IsRecent :
    {Store : Type 0} (redis : Redis Store) (laws : IsRedis redis) (credentials : Credentials)
    (nomba : ℕ → Answer) (before now : ℕ) (s s' : Store) (result : NombaResult)
    → Calls redis credentials nomba before s
    → before ≤ now
    → get_access_token redis credentials now (nomba now) s ≡ (ok result, s')
    → result.success ≡ true
    → IsRecent redis credentials nomba now result
unfolding Granted
get_access_token-IsRecent redis laws credentials nomba before now s s' result calls h e success =
    let kept =
      later redis credentials nomba before now (redis.content s) h
        (Calls-IsCache redis credentials nomba laws before s calls) in
    subst (Granted redis credentials nomba now) (ap (λ x. x.0) e)
      (get_access_token-Outcome redis credentials nomba laws now s kept).1 success

-- The text that a read of the cache yields, where there is one to use.
abbrev pub usable : Result (Option String) → Option String
usable (ok (some cached)) = if cached == "" then none else some cached
usable (ok none) = none
usable (raised e) = none

-- With a text from the cache this text is handed out, and the cache stays as it is; without one it
-- is the token of Nomba's answer, which is offered to the cache.
abbrev pub IsHandedOut :
    {Store : Type 0}
    → Redis Store
    → ℕ
    → Answer
    → Json
    → Store
    → Option String
    → Result NombaResult × Store
    → Type 0
IsHandedOut redis now answer token s (some cached) r = r ≡ (ok (granted 200 (text cached)), s)
IsHandedOut redis now answer token s none r =
    (code : ℕ) × (body : Json) × (answer ≡ responded code body)
    × (r ≡ (ok (granted code token), (redis.setex now nomba_token_ttl_seconds token s).1))

-- Whatever Redis does, reads and writes that fail included, a call with credentials that are set and
-- an answer of Nomba that has a token hands out a token: the one in the cache if the read yields a
-- text that is not empty, and else that of the answer, with its status code, which it also tries to
-- write to the cache for 3300 seconds.
pub get_access_token_available :
    {Store : Type 0} (redis : Redis Store) (credentials : Credentials) (now : ℕ) (answer : Answer)
    (token : Json) (s : Store)
    → Issues answer token
    → (credentials.nomba_client_id == "") ≡ false
    → (credentials.nomba_client_secret == "") ≡ false
    → IsHandedOut redis now answer token s
        (usable (redis.get now s))
        (get_access_token redis credentials now answer s)
unfolding get_access_token after_cache fresh_token issue_token take_token cache_token
get_access_token_available {Store} redis credentials now answer token s issues id secret =
    go (redis.get now s)
  where
    issue :
        (a : Answer)
        → Issues a token
        → IsHandedOut redis now a token s none (issue_token redis now a s)
    issue (responded code body) (read, given) = (code, body, refl, rw read (rw given refl))
    issue (status_error code message) h = elim h [ ]
    issue (http_error message) h = elim h [ ]
    issue (broken e) h = elim h [ ]

    fresh : IsHandedOut redis now answer token s none (fresh_token redis credentials now answer s)
    fresh = let (code, body, same, e) = issue answer issues in (code, body, same, rw (id, secret) e)

    go :
        (r : Result (Option String))
        → IsHandedOut redis now answer token s
            (usable r)
            (after_cache redis credentials now answer s r)
    go (raised e) = fresh
    go (ok none) = fresh
    go (ok (some cached)) = elim (Bool-cases (cached == "")) [
      | inl empty ↦ rw empty fresh
      | inr given ↦ rw given refl
    ]
