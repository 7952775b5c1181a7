-- ===== src/Ledger/Sound.antt =====
-- The invariant of the three tables that the services read and write together.
pub mod Customers
pub mod Accounts
pub mod Payments
use ldb_backend_hack.Base.{◌≡◌, ◌==◌, nat_eq, true, false, List, [], ◌∷◌, any, All}
use ldb_backend_hack.Model.{Customer, DedicatedAccount, Transaction}
use ldb_backend_hack.Ledger.{AreDistinct, IsFresh, IsKeyed, IsBalancedFor, IsKnown}

-- Each customer has one account at most.
abbrev pub IsSingle : List DedicatedAccount → Type 0
IsSingle accounts = AreDistinct (λ a. a.customer_id) accounts

-- The customer that an account names is in the table.
abbrev pub IsOwned : List Customer → DedicatedAccount → Type 0
IsOwned customers a = any (λ c. c.id == a.customer_id) customers ≡ true

abbrev pub IsBooked : List DedicatedAccount → Transaction → Type 0
IsBooked accounts t = IsKnown accounts t.dedicated_account_id

-- No two transactions have the same request id.
abbrev pub AreOnce : List Transaction → Type 0
AreOnce [] = Unit
AreOnce (t ∷ rest) = IsFresh t.nomba_request_id rest × AreOnce rest

-- Accounts have distinct ids and distinct owners, transactions distinct request ids, the foreign
-- keys name rows that are there, and each wallet holds the sum of the transactions that were
-- credited to it.
pub record IsSound (customers : List Customer) (accounts : List DedicatedAccount)
    (transactions : List Transaction) : Type 0 where
  pub keyed : IsKeyed accounts
  pub single : IsSingle accounts
  pub owned : All (IsOwned customers) accounts
  pub once : AreOnce transactions
  pub booked : All (IsBooked accounts) transactions
  pub balanced : All (IsBalancedFor accounts transactions) customers
