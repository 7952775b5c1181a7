-- ===== src/Webhooks/Request.antt =====
-- Which request a webhook body names, and that `receive` goes on with it.
use ldb_backend_hack.Base.{◌≡◌, ◌∙◌, String, none, some, arith}
use ldb_backend_hack.Json.{Json, Fields, null, object, lookup, or_json}
use ldb_backend_hack.Model.{World}
use ldb_backend_hack.Action.{ok, ◌>>=◌}
use ldb_backend_hack.Action.Steps.{bind_ok}
use ldb_backend_hack.Orm.{Orm}
use ldb_backend_hack.Runtime.{Runtime, get_default}
use ldb_backend_hack.Webhooks.{either_key, receive_request, receive}

-- `fields.get(key)`, as Python's `None` where the key is missing.
abbrev pub value_of : String → Fields → Json
value_of key fields = elim (lookup key fields) [ none ↦ null | some j ↦ j ]

abbrev pub event_of : Fields → Json
event_of fields = or_json (value_of "event_type" fields) (value_of "eventType" fields)

abbrev pub request_of : Fields → Json
request_of fields = or_json (value_of "requestId" fields) (value_of "request_id" fields)

get_default-value_of :
    (key : String) (fields : Fields)
    → get_default (object fields) key null ≡ ok (value_of key fields)
unfolding get_default
get_default-value_of key fields = ground arith

either_key-value_of :
    (key other : String) (fields : Fields) (w : World)
    → either_key key other (object fields) w
      ≡ (ok (or_json (value_of key fields) (value_of other fields)), w)
unfolding either_key ◌>>=◌
either_key-value_of key other fields w =
    rw (get_default-value_of key fields, get_default-value_of other fields)

-- `receive` on a dict goes on with the event and the request that the dict names.
pub receive_lem :
    (orm : Orm) (rt : Runtime) (fields : Fields) (w : World)
    → receive orm rt (object fields) w
      ≡ receive_request orm rt (object fields) (event_of fields) (request_of fields) w
unfolding receive
receive_lem orm rt fields w =
    bind_ok _ _ (either_key-value_of "event_type" "eventType" fields w)
    ∙ bind_ok _ _ (either_key-value_of "requestId" "request_id" fields w)
