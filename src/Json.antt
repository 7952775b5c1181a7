-- ===== src/Json.antt =====
-- Values that `json.loads` yields (app/services/webhooks.py and app/services/reconciliation.py read
-- webhook bodies as plain dicts), with Python's truth test and `or`.
use ldb_backend_hack.Base.{ℤ, pos, zero, String, Bool, true, false, not, Option, none, some}
use ldb_backend_hack.Base.{◌==◌, string_eq, if◌then◌else◌}

mutual
  -- A number is kept in hundredths: the amounts of this program have at most two decimals.
  pub data Json : Type 0 where
    null : Json
    bool : Bool → Json
    number : ℤ → Json
    text : String → Json
    array : Items → Json
    object : Fields → Json

  pub data Items : Type 0 where
    nil : Items
    cons : Json → Items → Items

  pub data Fields : Type 0 where
    end : Fields
    field : String → Json → Fields → Fields

-- Python's `bool(j)`.
unfoldable pub truthy : Json → Bool
truthy null = false
truthy (bool b) = b
truthy (number (pos zero)) = false
truthy (number n) = true
truthy (text s) = not (s == "")
truthy (array nil) = false
truthy (array items) = true
truthy (object end) = false
truthy (object fields) = true

-- Python's `j or k`.
unfoldable pub or_json : Json → Json → Json
unfolding truthy
or_json j k = if truthy j then j else k

-- `d.get(key)` on the entries of a dict.
unfoldable pub lookup : String → Fields → Option Json
lookup key end = none
lookup key (field name j rest) = if key == name then some j else lookup key rest
