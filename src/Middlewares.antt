-- ===== src/Middlewares.antt =====
-- app/middlewares/: request_logger.py and metrics.py, as functions from ASGI applications to ASGI
-- applications, in the order in which app/main.py adds them. A run of an application is the
-- sequence of what it does that others see. Times are left out.
pub mod Paths
pub mod Watched
use Prim.Native.Char.{Char, code}
use ldb_backend_hack.Base.{
  ℕ, zero, suc, nat_eq, ◌&&◌, ◌||◌, false, strip, before_comma, String, ◌<>◌, ◌==◌, string_eq, leb,
  Bool, true, Option, none, some, List, [], ◌∷◌, ◌++◌, if◌then◌else◌,
}

-- An ASGI message: "http.response.start" with its status and headers, or one of another type.
pub data Message : Type 0 where
  response_start : ℕ → List (String × String) → Message
  other_message : String → String → Message

pub data Level : Type 0 where
  info : Level
  warning : Level
  error : Level

pub data Event : Type 0 where
  sent : Message → Event
  -- `bind_request_context(correlation_id, ip_address)` and `clear_request_context()`
  bound : String → String → Event
  cleared : Event
  -- a line of the log: its text, method and path, and its status if it has one, less the
  -- correlation id, which is bound, and the duration
  logged : Level → String → String → String → Option ℕ → Event
  -- `http_requests_total...inc()` with method, path and status
  counted : String → String → ℕ → Event
  -- the observation that the timer of `http_request_duration` makes on leaving its block
  timed : String → String → Event

pub record Run : Type 0 where
  pub events : List Event
  -- whether it ended by an exception
  pub failed : Bool

pub record Scope : Type 0 where
  pub scope_type : String
  pub method : String
  pub path : String
  -- the cookie `_CCRLID`, the header X-Forwarded-For, and `request.client.host`
  pub correlation_cookie : Option String
  pub forwarded_for : Option String
  pub client_host : Option String

abbrev pub App : Type 0
App = Scope → Run

-- What runs with `send` replaced: each message goes through the wrapper.
abbrev pub through : (Message → List Event) → Event → List Event
through wrapper (sent m) = wrapper m
through wrapper (bound c i) = bound c i ∷ []
through wrapper cleared = cleared ∷ []
through wrapper (logged l t m p s) = logged l t m p s ∷ []
through wrapper (counted m p s) = counted m p s ∷ []
through wrapper (timed m p) = timed m p ∷ []

abbrev pub wrap_send : (Message → List Event) → List Event → List Event
wrap_send wrapper [] = []
wrap_send wrapper (e ∷ es) = through wrapper e ++ wrap_send wrapper es

unfoldable pub ip_address_of : Scope → String
ip_address_of scope = elim scope.forwarded_for [
  | some forwarded ↦ strip (before_comma forwarded)
  | none ↦ elim scope.client_host [ some host ↦ host | none ↦ "unknown" ]
]

-- `request.cookies.get("_CCRLID", str(uuid4()))`
unfoldable pub correlation_id_of : String → Scope → String
correlation_id_of fresh scope = elim scope.correlation_cookie [ some id ↦ id | none ↦ fresh ]

unfoldable pub correlation_cookie_of : String → String
correlation_cookie_of id = "_CCRLID=" <> id <> "; Max-Age=86400; Path=/; HttpOnly"

-- The level and the text of the line for a status.
unfoldable pub outcome_of : ℕ → Level × String
outcome_of status =
    if leb 500 status
    then (error, "Request failed")
    else if leb 400 status
    then (warning, "Request client error")
    else (info, "Request completed")

unfoldable pub log_status : Scope → ℕ → Event
log_status scope status =
    logged (outcome_of status).0 (outcome_of status).1 scope.method scope.path (some status)

-- `send_wrapper` of the request logger
unfoldable pub send_logged : String → Scope → Message → List Event
send_logged id scope (response_start status headers) =
    log_status scope status
    ∷ sent (response_start status (headers ++ ("Set-Cookie", correlation_cookie_of id) ∷ []))
    ∷ []
send_logged id scope (other_message t body) = sent (other_message t body) ∷ []

unfoldable pub request_logger : String → App → App
request_logger fresh app scope =
    if scope.scope_type == "http"
    then record {
      events =
          bound (correlation_id_of fresh scope) (ip_address_of scope)
            ∷ logged info "Request received" scope.method scope.path none
            ∷ wrap_send (send_logged (correlation_id_of fresh scope) scope) (app scope).events
          ++ cleared ∷ [];
      failed = (app scope).failed;
    }
    else app scope

-- A run of the characters that the classes accept, one each.
abbrev pub matches : List (Char → Bool) → String → Bool
matches [] s = true
matches (p ∷ ps) String.[] = false
matches (p ∷ ps) (String.◌∷◌ c s) = p c && matches ps s

abbrev pub is_slash : Char → Bool
is_slash c = code c == 47

abbrev pub is_dash : Char → Bool
is_dash c = code c == 45

-- `[0-9a-f]`
abbrev pub is_hex : Char → Bool
is_hex c = let n = code c in (leb 48 n && leb n 57) || (leb 97 n && leb n 102)

abbrev pub times : ℕ → (Char → Bool) → List (Char → Bool)
times zero p = []
times (suc n) p = p ∷ times n p

-- `[0-9a-f]{8}-[0-9a-f]{4}-[0-9a-f]{4}-[0-9a-f]{4}-[0-9a-f]{12}`
abbrev pub uuid_pattern : List (Char → Bool)
uuid_pattern =
    times 8 is_hex
    ++ is_dash ∷ times 4 is_hex
    ++ is_dash ∷ times 4 is_hex
    ++ is_dash ∷ times 4 is_hex
    ++ is_dash ∷ times 12 is_hex

-- The first `re.sub`, with the number of characters of a match that are still to be dropped.
unfoldable pub sub_ids : ℕ → String → String
sub_ids n String.[] = String.[]
sub_ids (suc n) (String.◌∷◌ c s) = sub_ids n s
sub_ids zero (String.◌∷◌ c s) = elim (matches uuid_pattern (String.◌∷◌ c s)) [
  | true ↦ ":id" <> sub_ids 35 s
  | false ↦ String.◌∷◌ c (sub_ids 0 s)
]

-- What a character becomes: dropped, the start of a match of `/\d+`, or itself.
abbrev pub next_char : Bool → Bool → Char → (Bool → String) → String
next_char true matched c rest = rest true
next_char false true c rest =
    String.◌∷◌ "/" (String.◌∷◌ ":" (String.◌∷◌ "n" (String.◌∷◌ "u" (String.◌∷◌ "m" (rest true)))))
next_char false false c rest = String.◌∷◌ c (rest false)

-- The rest takes a parameter: which characters `\d` matches, those of Unicode's category Nd.
module _ (is_decimal : Char → Bool) where
  abbrev pub starts_decimal : String → Bool
  starts_decimal String.[] = false
  starts_decimal (String.◌∷◌ c s) = is_decimal c

  -- The second `re.sub`, with whether the digits of a match are being dropped.
  unfoldable pub sub_numbers : Bool → String → String
  sub_numbers dropping String.[] = String.[]
  sub_numbers dropping (String.◌∷◌ c s) =
      next_char (dropping && is_decimal c) (is_slash c && starts_decimal s) c (λ d. sub_numbers d s)

  unfoldable pub normalize_path : String → String
  normalize_path path = sub_numbers false (sub_ids 0 path)

-- `send_wrapper` of the metrics
unfoldable pub send_counted : (Char → Bool) → Scope → Message → List Event
send_counted is_decimal scope (response_start status headers) =
    counted scope.method (normalize_path is_decimal scope.path) status
    ∷ sent (response_start status headers)
    ∷ []
send_counted is_decimal scope (other_message t body) = sent (other_message t body) ∷ []

unfoldable pub metrics : (Char → Bool) → App → App
metrics is_decimal app scope =
    if scope.scope_type == "http"
    then record {
      events =
          wrap_send (send_counted is_decimal scope) (app scope).events
          ++ timed scope.method (normalize_path is_decimal scope.path) ∷ [];
      failed = (app scope).failed;
    }
    else app scope

-- The order of app/main.py: the middleware that is added last is outermost.
unfoldable pub with_middlewares : (is_decimal : Char → Bool) (fresh : String) → App → App
with_middlewares is_decimal fresh app = metrics is_decimal (request_logger fresh app)
