-- ===== src/Middlewares/Watched.antt =====
-- A request through the middlewares.
use Prim.Native.Char.{Char}
use ldb_backend_hack.Base.{
  ℕ, String, ◌==◌, string_eq, ==_refl, Bool, true, none, List, [], ◌∷◌, ◌++◌, map, ◌≡◌, refl, ap,
  ◌∙◌,
}
use ldb_backend_hack.Middlewares.{
  Message, response_start, other_message, Event, sent, bound, cleared, logged, counted, timed, info,
  Run, Scope, App, wrap_send, correlation_id_of, correlation_cookie_of, ip_address_of, log_status,
  send_logged, request_logger, send_counted, normalize_path, metrics, with_middlewares,
}

-- What a request shows of a sequence of events.
abbrev pub messages : List Event → List Message
messages [] = []
messages (sent m ∷ es) = m ∷ messages es
messages (_ ∷ es) = messages es

abbrev pub counts : List Event → List (String × String × ℕ)
counts [] = []
counts (counted m p s ∷ es) = (m, p, s) ∷ counts es
counts (_ ∷ es) = counts es

abbrev pub log_lines : List Event → List Event
log_lines [] = []
log_lines (logged l t m p s ∷ es) = logged l t m p s ∷ log_lines es
log_lines (_ ∷ es) = log_lines es

-- The statuses of the responses that were started.
abbrev pub statuses : List Message → List ℕ
statuses [] = []
statuses (response_start s headers ∷ ms) = s ∷ statuses ms
statuses (other_message t body ∷ ms) = statuses ms

abbrev pub with_cookie : String → Message → Message
with_cookie id (response_start s headers) =
    response_start s (headers ++ ("Set-Cookie", correlation_cookie_of id) ∷ [])
with_cookie id (other_message t body) = other_message t body

-- A run through both middlewares, against the messages and the end of the application alone.
pub record IsWatched (is_decimal : Char → Bool) (id : String) (scope : Scope) (ms : List Message)
    (failed : Bool) (r : Run) : Type 0 where
  pub forwarded : messages r.events ≡ map (with_cookie id) ms
  pub same_end : r.failed ≡ failed
  pub counted_each :
      counts r.events
      ≡ map (λ s. (scope.method, normalize_path is_decimal scope.path, s)) (statuses ms)
  pub logged_each :
      log_lines r.events
      ≡ logged info "Request received" scope.method scope.path none
        ∷ map (log_status scope) (statuses ms)
  pub within :
      (es : List Event) × (r.events
        ≡ bound id (ip_address_of scope) ∷ es
          ++ cleared ∷ timed scope.method (normalize_path is_decimal scope.path) ∷ [])

module _ (is_decimal : Char → Bool) (id : String) (scope : Scope) where
  -- What the two wrappers make of the messages.
  abbrev inner : List Message → List Event
  inner ms = wrap_send (send_logged id scope) (map sent ms)

  -- The same with the ends of both middlewares.
  abbrev both : List Message → List Event
  both ms =
      wrap_send (send_counted is_decimal scope) (inner ms ++ cleared ∷ [])
      ++ timed scope.method (normalize_path is_decimal scope.path) ∷ []

  messages-both : (ms : List Message) → messages (both ms) ≡ map (with_cookie id) ms
  unfolding send_counted send_logged log_status
  messages-both [] = refl
  messages-both (response_start s headers ∷ ms) = rw (messages-both ms) refl
  messages-both (other_message t body ∷ ms) = rw (messages-both ms) refl

  counts-both :
      (ms : List Message)
      → counts (both ms)
        ≡ map (λ s. (scope.method, normalize_path is_decimal scope.path, s)) (statuses ms)
  unfolding send_counted send_logged log_status
  counts-both [] = refl
  counts-both (response_start s headers ∷ ms) = rw (counts-both ms) refl
  counts-both (other_message t body ∷ ms) = counts-both ms

  log_lines-both : (ms : List Message) → log_lines (both ms) ≡ map (log_status scope) (statuses ms)
  unfolding send_counted send_logged log_status
  log_lines-both [] = refl
  log_lines-both (response_start s headers ∷ ms) = rw (log_lines-both ms) refl
  log_lines-both (other_message t body ∷ ms) = log_lines-both ms

  both-ends :
      (ms : List Message)
      → both ms
        ≡ wrap_send (send_counted is_decimal scope) (inner ms)
          ++ cleared ∷ timed scope.method (normalize_path is_decimal scope.path) ∷ []
  unfolding send_counted send_logged log_status
  both-ends [] = refl
  both-ends (response_start s headers ∷ ms) = rw (both-ends ms) refl
  both-ends (other_message t body ∷ ms) = rw (both-ends ms) refl

-- An application that sends these messages, and may then raise.
abbrev pub sends : List Message → Bool → App
sends ms failed scope = record { events = map sent ms; failed = failed }

-- For an HTTP request, the middlewares send on every message of the application, in order, with the
-- cookie of the correlation id added to the headers of each start of a response, and end as the
-- application does, also by an exception; they count each status that was sent once, under the
-- normalised path, write one line on receipt and one for each status, bind the context of the log
-- before all else and clear it at the end, before the timer observes.
pub with_middlewares-IsWatched :
    (is_decimal : Char → Bool) (fresh : String) (ms : List Message) (failed : Bool) (scope : Scope)
    → scope.scope_type ≡ "http"
    → IsWatched is_decimal
        (correlation_id_of fresh scope)
        scope
        ms
        failed
        (with_middlewares is_decimal fresh (sends ms failed) scope)
unfolding with_middlewares metrics request_logger
with_middlewares-IsWatched is_decimal fresh ms failed scope http =
    let is_http : (scope.scope_type == "http") ≡ true =
      ap (λ t. t == "http") http ∙ ==_refl {A = String} "http" in
    let id = correlation_id_of fresh scope in
    rw is_http (record {
      forwarded = messages-both is_decimal id scope ms;
      same_end = refl;
      counted_each = counts-both is_decimal id scope ms;
      logged_each = rw (log_lines-both is_decimal id scope ms) refl;
      within = (
        logged info "Request received" scope.method scope.path none
            ∷ wrap_send (send_counted is_decimal scope) (inner is_decimal id scope ms),
        rw (both-ends is_decimal id scope ms) refl,
      );
    })
