-- ===== src/System.antt =====
-- The whole backend as a transition system: main.py serves the routes of app/api/router/ and runs
-- the nightly job, one after the other.
pub mod Rules
pub mod Customers
pub mod Accounts
pub mod Payments
pub mod Invariant
pub mod Marks
use ldb_backend_hack.Base.{[], pos, ◌<ℤ◌, ◌≡◌}
use ldb_backend_hack.Json.{Json}
use ldb_backend_hack.Model.{World}
use ldb_backend_hack.Action.{ok}
use ldb_backend_hack.Orm.{Orm}
use ldb_backend_hack.Runtime.{Runtime}
use ldb_backend_hack.Nomba.{Answer}
use ldb_backend_hack.Webhooks.Balance.{HasNoNegative}
use ldb_backend_hack.Webhooks.{SimulateFunding}
use ldb_backend_hack.Api.{
  Outside, Request, get_health, post_nomba, bearer, Route, customers, accounts, hooks, HookRoute,
  post_register, post_simulate, serve, answer,
}
use ldb_backend_hack.Nightly.{run_nightly_reconciliation}

-- The tables as they are created, when `n` random numbers have been drawn.
abbrev pub empty_world : World
empty_world = record {
  customers = [];
  accounts = [];
  transactions = [];
  suspense_logs = [];
  reconciliation_logs = [];
  registrations = [];
  processed_events = [];
  outbox = [];
  ticks = 0;
}

-- What is asked of a request: that Nomba reports no negative amount, and `gt=0` of the amount of a
-- simulated transfer, which FastAPI checks. `Outside` is what the body is read with.
abbrev pub IsAccepted : Runtime → Outside → Request → Type 0
IsAccepted rt outside (post_nomba raw_body signature) =
    (payload : Json)
    → outside.gate.loads raw_body ≡ ok payload
    → (w : World) → HasNoNegative rt payload w
IsAccepted rt outside (bearer credentials (hooks (post_simulate body))) = pos 0 <ℤ body.amount
IsAccepted rt outside request = Unit

-- Each request may meet other answers of Nomba and other settings than the one before.
pub data Step (orm : Orm) (rt : Runtime) (w : World) : World → Type 0 where
  request :
      (outside : Outside) (r : Request)
      → IsAccepted rt outside r
      → Step orm rt w (answer orm rt outside r w).1
  nightly : (nomba_list : Answer) → Step orm rt w (run_nightly_reconciliation orm rt nomba_list w).1

-- The states that the backend can get to.
pub data Reach (orm : Orm) (rt : Runtime) : World → Type 0 where
  start : Reach orm rt empty_world
  next : {w w' : World} → Reach orm rt w → Step orm rt w w' → Reach orm rt w'

-- The states that it can get to from a state on.
pub data Later (orm : Orm) (rt : Runtime) (w : World) : World → Type 0 where
  here : Later orm rt w w
  after : {v v' : World} → Later orm rt w v → Step orm rt v v' → Later orm rt w v'
