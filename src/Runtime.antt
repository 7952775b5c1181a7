-- ===== src/Runtime.antt =====
-- What the services take from outside: random numbers, the clock, number formats, `json.dumps`,
-- HMAC and the merchants' HTTP endpoints. Beside it, the Python idioms for JSON values.
pub mod Dicts
use ldb_backend_hack.Base.{ℕ, ◌+◌, String, true, false, Option, none, some}
use ldb_backend_hack.Json.{Json, null, bool, number, text, object, lookup}
use ldb_backend_hack.Model.{Delivery, Decimal, Uuid}
use ldb_backend_hack.Action.{Result, ok, raised, Action, attribute_error, invalid_operation}

-- How one outbound `client.post` ends.
pub data Posted : Type 0 where
  -- a response, with its status code
  delivered : ℕ → Posted
  -- an `httpx.HTTPError`, with its text
  http_error : String → Posted
  -- any other exception, such as `httpx.InvalidURL`
  failed : Posted

pub record Runtime : Type 0 where
  -- The UUID that the n-th call of `uuid4` draws, and the time when it does.
  pub uuid : ℕ → Uuid
  pub now : ℕ → ℕ
  -- How many draws `generate_reference` is followed through.
  pub rounds : ℕ
  -- `Decimal(s)`, in hundredths; `none` where it raises `InvalidOperation`.
  pub decimal_of_text : String → Option Decimal
  -- `str(d)` of a decimal, and `str(j)` of a JSON number, list or dict.
  pub show_decimal : Decimal → String
  pub repr : Json → String
  -- `datetime.isoformat()`
  pub isoformat : ℕ → String
  -- The number that `str(float(d))` denotes.
  pub float : Decimal → Decimal
  -- `round(float(a / b * 100), 2)`, in hundredths, where `b` is not 0
  pub percentage : Decimal → Decimal → Decimal
  -- `json.dumps(payload, separators=(",", ":"))`
  pub dumps : Json → String
  -- `hmac.new(secret, body, sha256).hexdigest()`
  pub hmac_hex : String → String → String
  -- The answer to the n-th outbound delivery.
  pub post : ℕ → Delivery → Posted

-- `j.get(key, default)`; only a dict has `get`.
unfoldable pub get_default : Json → String → Json → Result Json
unfolding lookup
get_default (object fields) key default = elim (lookup key fields) [
  | none ↦ ok default
  | some j ↦ ok j
]
get_default j key default = raised attribute_error

module _ (rt : Runtime) where
  -- `str(j)`
  unfoldable pub py_str : Json → String
  py_str null = "None"
  py_str (bool true) = "True"
  py_str (bool false) = "False"
  py_str (text s) = s
  py_str j = rt.repr j

  -- What a nullable text column stores for the value.
  unfoldable pub nullable_text : Json → Option String
  nullable_text null = none
  nullable_text j = some (py_str j)

  -- `Decimal(str(j))`
  unfoldable pub decimal_of : Json → Result Decimal
  decimal_of (number n) = ok n
  decimal_of (text s) = elim (rt.decimal_of_text s) [
    | none ↦ raised invalid_operation
    | some d ↦ ok d
  ]
  decimal_of j = raised invalid_operation

  -- `uuid4()`
  unfoldable pub uuid4 : Action Uuid
  uuid4 w = (ok (rt.uuid w.ticks), record w { ticks = w.ticks + 1 })

  -- `auto_now` and `auto_now_add` columns.
  unfoldable pub clock : Action ℕ
  clock w = (ok (rt.now w.ticks), w)
