-- ===== src/Webhooks/Balance.antt =====
-- Deliveries of webhooks and the balance of the wallets.
use ldb_backend_hack.Base.{pos, ◌≤ℤ◌, ◌≡◌, String, inl, inr}
use ldb_backend_hack.Json.{Json}
use ldb_backend_hack.Model.{World}
use ldb_backend_hack.Action.{ok}
use ldb_backend_hack.Orm.{Orm, IsLawful}
use ldb_backend_hack.Orm.Memory.{memory, lawful-eq-memory}
use ldb_backend_hack.Runtime.{Runtime}
use ldb_backend_hack.Reconciliation.{Payment, read_payment}
use ldb_backend_hack.Reconciliation.Books.{Processes, unread, books}
use ldb_backend_hack.Ledger.{IsBalanced}
use ldb_backend_hack.Ledger.Balance.{Books-IsBalanced, Unchanged-IsBalanced}
use ldb_backend_hack.Webhooks.{receive}
use ldb_backend_hack.Webhooks.Effects.{receive-cases}

-- The payment that is read out of the body, if one is, has no negative amount.
abbrev pub HasNoNegative : Runtime → Json → World → Type 0
HasNoNegative rt payload w =
    (request_id : String) (p : Payment)
    → (read_payment rt request_id payload w).0 ≡ ok p
    → pos 0 ≤ℤ p.amount

module _ (rt : Runtime) (payload : Json) (w : World) where
  Processes-IsBalanced :
      (request_id : String) {w' : World}
      → HasNoNegative rt payload w
      → Processes rt request_id payload w w'
      → IsBalanced w
      → IsBalanced w'
  Processes-IsBalanced request_id {w'} nonneg (unread h) balanced =
      Unchanged-IsBalanced w w' h balanced
  Processes-IsBalanced request_id {w'} nonneg (books p read same b) balanced =
      Books-IsBalanced p w w' (nonneg request_id p read) b balanced

  receive-IsBalanced-memory :
      HasNoNegative rt payload w → IsBalanced w → IsBalanced (receive memory rt payload w).1
  receive-IsBalanced-memory nonneg balanced = elim (receive-cases rt payload w) [
    | inl same ↦ Unchanged-IsBalanced w _ same balanced
    | inr (request_id, step) ↦ Processes-IsBalanced request_id nonneg step balanced
  ]

-- Over any lawful ORM, if every wallet holds the sum of the transactions that were credited to it,
-- and the amount in the webhook is not negative, the same holds after the delivery, also where it
-- ends in an error.
pub receive-IsBalanced :
    (orm : Orm) (laws : IsLawful orm) (rt : Runtime) (payload : Json) (w : World)
    → HasNoNegative rt payload w
    → IsBalanced w
    → IsBalanced (receive orm rt payload w).1
receive-IsBalanced orm laws rt payload w nonneg balanced =
    rw (lawful-eq-memory orm laws) (receive-IsBalanced-memory rt payload w nonneg balanced)
