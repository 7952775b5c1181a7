-- ===== src/Action.antt =====
-- Service calls: state and exceptions. The state comes back beside an exception too, since what
-- was written before a raise stays written. app/utils/exceptions.py names the first two.
use ldb_backend_hack.Base.{ℕ, String, Option, List}
pub mod Reads
pub mod Steps
pub mod Hoare
pub mod Safe
use ldb_backend_hack.Model.{World}

pub data Exception : Type 0 where
  error_response : ℕ → String → Option (List String) → Exception
  rate_limit_error_response : ℕ → String → Option (List String) → Exception
  -- FastAPI's `HTTPException`, with its status and detail.
  http_exception : ℕ → String → Exception
  -- FastAPI's `RequestValidationError`: the last part of each location, and the message.
  request_validation_error : List (String × String) → Exception
  runtime_error : String → Exception
  -- `ValueError`, which `UUID(s)` raises
  value_error : Exception
  -- An attribute that `None`, a number or a list does not have.
  attribute_error : Exception
  -- `decimal.InvalidOperation`
  invalid_operation : Exception
  -- Tortoise's errors: a unique constraint is violated, a query for one row finds several, a
  -- row that a foreign key names is not there.
  integrity_error : Exception
  multiple_objects_returned : Exception
  does_not_exist : Exception
  -- Any other exception of an outbound HTTP call.
  transport_failure : Exception
  -- The bound on the draws of `generate_reference` is used up.
  draws_exhausted : Exception

pub data Result {ℓ} (A : Type ℓ) : Type ℓ where
  ok : A → Result A
  raised : Exception → Result A

abbrev pub Action {ℓ} : Type ℓ → Type ℓ
Action A = World → Result A × World

module _ {ℓ} {A : Type ℓ} where
  unfoldable pub pure : A → Action A
  pure a w = (ok a, w)

  unfoldable pub raise : Exception → Action A
  raise e w = (raised e, w)

  unfoldable pub lift : Result A → Action A
  lift r w = (r, w)

-- A query: it reads the state, and leaves it as it is.
unfoldable pub ask {ℓ} : {A : Type ℓ} → (World → Result A) → Action A
ask f w = (f w, w)

infixl 5 ◌>>=◌ ◌>>◌
-- Opening this opens `pure`, `raise` and `lift` too.
unfoldable pub ◌>>=◌ {ℓ κ} : {A : Type ℓ} {B : Type κ} → Action A → (A → Action B) → Action B
unfolding pure raise lift
◌>>=◌ m f w = let (r, w') = m w in elim r [ ok a ↦ f a w' | raised e ↦ (raised e, w') ]

abbrev pub ◌>>◌ {ℓ κ} : {A : Type ℓ} {B : Type κ} → Action A → Action B → Action B
m >> k = m >>= λ _. k

-- `try: r = m` with a handler that goes on from the state that the call left.
unfoldable pub attempt {ℓ} : {A : Type ℓ} → Action A → Action (Result A)
attempt m w = let (r, w') = m w in (ok r, w')
