-- ===== src/Ledger.antt =====
-- The ledger behind the tables: what a call of app/services/reconciliation.py may do to it, and
-- the balance of the wallets.
pub mod Balance
pub mod Keeps
pub mod Sound
use ldb_backend_hack.Base.{
  ℤ, pos, ◌+ℤ◌, ◌≡◌, ◌==◌, nat_eq, string_eq, String, Bool, true, false, ◌&&◌, Option, none, some,
  List, [], ◌∷◌, ◌++◌, any, replace, All, Elem, if◌then◌else◌, ℕ,
}
use ldb_backend_hack.Model.{
  World, Customer, DedicatedAccount, Transaction, Decimal, Uuid, TransactionStatus, misdirected,
  active, transaction_status_eq,
}
use ldb_backend_hack.Reconciliation.{Payment}
use ldb_backend_hack.Helpers.{derive_transaction_status}

-- Nothing but logs, deliveries and the clock has changed.
pub record Unchanged (w w' : World) : Type 0 where
  pub customers : w'.customers ≡ w.customers
  pub accounts : w'.accounts ≡ w.accounts
  pub transactions : w'.transactions ≡ w.transactions

-- No transaction has the request id yet.
abbrev pub IsFresh : String → List Transaction → Type 0
IsFresh request_id transactions = any (λ t. request_id == t.nomba_request_id) transactions ≡ false

-- The account that a transaction names, if it names one, is in the table.
abbrev pub IsKnown : List DedicatedAccount → Option Uuid → Type 0
IsKnown accounts none = Unit
IsKnown accounts (some id) = any (λ a. a.id == id) accounts ≡ true

-- The payment has been entered for an active account, and its customer's wallet has grown by it.
pub record Credits (p : Payment) (w w' : World) : Type 0 where
  pub account : DedicatedAccount
  pub customer : Customer
  pub entry : Transaction
  pub time : ℕ
  pub account_known : Elem account w.accounts
  pub customer_known : Elem customer w.customers
  pub owner : customer.id ≡ account.customer_id
  pub is_active : account.status ≡ active
  pub is_fresh : IsFresh p.request_id w.transactions
  pub request : entry.nomba_request_id ≡ p.request_id
  pub amount : entry.amount ≡ p.amount
  pub booked_to : entry.dedicated_account_id ≡ some account.id
  pub status : entry.status ≡ derive_transaction_status p.amount customer.target_amount
  pub transactions : w'.transactions ≡ w.transactions ++ entry ∷ []
  pub accounts : w'.accounts ≡ w.accounts
  pub customers :
      w'.customers
      ≡ replace
          (λ c. c.id == customer.id)
          (record customer {
            wallet_balance = customer.wallet_balance +ℤ p.amount;
            updated_at = time;
          })
          w.customers

-- The payment has been entered as misdirected, for an account that is known or for none, and no
-- wallet has changed.
pub record Parks (p : Payment) (w w' : World) : Type 0 where
  pub entry : Transaction
  pub is_fresh : IsFresh p.request_id w.transactions
  pub request : entry.nomba_request_id ≡ p.request_id
  pub amount : entry.amount ≡ p.amount
  pub booked_to : IsKnown w.accounts entry.dedicated_account_id
  pub status : entry.status ≡ misdirected
  pub transactions : w'.transactions ≡ w.transactions ++ entry ∷ []
  pub accounts : w'.accounts ≡ w.accounts
  pub customers : w'.customers ≡ w.customers

-- The three things that processing a payment can do to the ledger.
pub data Books (p : Payment) (w w' : World) : Type 0 where
  unchanged : Unchanged w w' → Books p w w'
  credits : Credits p w w' → Books p w w'
  parks : Parks p w w' → Books p w w'

-- The account number that a transaction names belongs to the customer.
abbrev pub owns : List DedicatedAccount → Uuid → Option Uuid → Bool
owns accounts customer_id none = false
owns accounts customer_id (some id) = any (λ a. a.id == id && a.customer_id == customer_id) accounts

-- What a transaction counts for the customer: its amount, unless it is misdirected.
unfoldable pub credit_of : List DedicatedAccount → Uuid → Transaction → Decimal
credit_of accounts customer_id t =
    if t.status == misdirected
    then pos 0
    else if owns accounts customer_id t.dedicated_account_id
    then t.amount
    else pos 0

unfoldable pub credited : List DedicatedAccount → List Transaction → Uuid → Decimal
credited accounts [] customer_id = pos 0
credited accounts (t ∷ rest) customer_id =
    credit_of accounts customer_id t +ℤ credited accounts rest customer_id

-- No two accounts have the same key.
abbrev pub AreDistinct : (DedicatedAccount → Uuid) → List DedicatedAccount → Type 0
AreDistinct key [] = Unit
AreDistinct key (a ∷ rest) = (any (λ b. key b == key a) rest ≡ false) × AreDistinct key rest

-- The primary key of the accounts.
abbrev pub IsKeyed : List DedicatedAccount → Type 0
IsKeyed accounts = AreDistinct (λ a. a.id) accounts

abbrev pub IsBalancedFor : List DedicatedAccount → List Transaction → Customer → Type 0
IsBalancedFor accounts transactions c = c.wallet_balance ≡ credited accounts transactions c.id

-- Every wallet holds the sum of the transactions that were credited to it.
pub record IsBalanced (w : World) : Type 0 where
  pub keyed : IsKeyed w.accounts
  pub balanced : All (IsBalancedFor w.accounts w.transactions) w.customers
