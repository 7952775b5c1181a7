-- ===== src/Runtime/Dicts.antt =====
-- What `get` finds in the dicts of a JSON body.
use ldb_backend_hack.Base.{◌≡◌, refl, String, none, some}
use ldb_backend_hack.Json.{Json, null, object, Fields, lookup}
use ldb_backend_hack.Action.{Result, ok}
use ldb_backend_hack.Runtime.{get_default}

-- What a dict has under the key.
abbrev pub got : String → Fields → Json
got key fields = elim (lookup key fields) [ none ↦ null | some j ↦ j ]

-- The data of an answer of Nomba, which is the whole answer where it has no such key.
abbrev pub data_in : Fields → Json
data_in fields = elim (lookup "data" fields) [ none ↦ object fields | some j ↦ j ]

pub get_default_lem :
    (key : String) (fields : Fields) → get_default (object fields) key null ≡ ok (got key fields)
unfolding get_default
get_default_lem key fields =
    elim (lookup key fields)
      as (λ o.
        ◌≡◌ {A = Result Json} (elim o [ none ↦ ok null | some j ↦ ok j ])
          (ok (elim o [ none ↦ null | some j ↦ j ]))) [ none ↦ refl | some j ↦ refl ]

pub get_data :
    (fields : Fields) → get_default (object fields) "data" (object fields) ≡ ok (data_in fields)
unfolding get_default
get_data fields =
    elim (lookup "data" fields)
      as (λ o.
        ◌≡◌ {A = Result Json} (elim o [ none ↦ ok (object fields) | some j ↦ ok j ])
          (ok (elim o [ none ↦ object fields | some j ↦ j ]))) [ none ↦ refl | some j ↦ refl ]
