-- ===== src/Statements.antt =====
-- app/services/statements.py: the transactions of an account by pages, and its statement.
pub mod Owned
pub mod Totals
pub mod Access
pub mod Pages
use ldb_backend_hack.Base.{
  ℕ, ◌+◌, ◌-◌, ◌*◌, ◌/◌, max, pos, zero, ◌+ℤ◌, ◌==◌, nat_eq, String, Bool, not, Option, none, some,
  List, [], ◌∷◌, length, select, map, if◌then◌else◌,
}
use mathlib.Core.List.{Perm}
use ldb_backend_hack.Model.{
  World, Customer, DedicatedAccount, Transaction, Decimal, Uuid, TransactionStatus, TransactionType,
  partial, misdirected, transaction_status_eq,
}
use ldb_backend_hack.Action.{Action, Result, ok, raised, pure, raise, ask, error_response, ◌>>=◌}
use ldb_backend_hack.Orm.{Orm}
use ldb_backend_hack.Helpers.{customer_status, outstanding_balance}
use ldb_backend_hack.Reconciliation.{fetch_customer}

-- `PaginateFilterRequestSchema`
pub record PaginateFilter : Type 0 where
  pub page : ℕ
  pub limit : ℕ

-- The dict of one transaction in a page.
pub record TransactionView : Type 0 where
  pub id : Uuid
  pub dedicated_account_id : Option Uuid
  pub nomba_request_id : String
  pub nomba_transaction_id : Option String
  pub merchant_tx_ref : Option String
  pub amount : Decimal
  pub fee : Decimal
  pub sender_name : Option String
  pub sender_bank : Option String
  pub type : TransactionType
  pub status : TransactionStatus
  pub narration : Option String
  pub created_at : ℕ

-- The metadata of a page, and its data as `items`.
pub record TransactionPage : Type 0 where
  pub page : ℕ
  pub pages : ℕ
  pub limit : ℕ
  pub total : ℕ
  pub count : ℕ
  pub items : List TransactionView

-- The dict of one transaction in a statement.
pub record StatementLine : Type 0 where
  pub id : Uuid
  pub amount : Decimal
  pub status : TransactionStatus
  pub sender_name : Option String
  pub sender_bank : Option String
  pub merchant_tx_ref : Option String
  pub narration : Option String
  pub created_at : ℕ

pub record Statement : Type 0 where
  pub account_id : Uuid
  pub merchant_customer_id : String
  pub customer_name : String
  pub account_number : String
  pub target_amount : Option Decimal
  pub total_received : Decimal
  pub wallet_balance : Decimal
  pub outstanding_balance : Decimal
  pub flagged_short_payments : ℕ
  pub status : String
  pub transactions : List StatementLine

abbrev pub view_of : Transaction → TransactionView
view_of tx = record {
  id = tx.id;
  dedicated_account_id = tx.dedicated_account_id;
  nomba_request_id = tx.nomba_request_id;
  nomba_transaction_id = tx.nomba_transaction_id;
  merchant_tx_ref = tx.merchant_tx_ref;
  amount = tx.amount;
  fee = tx.fee;
  sender_name = tx.sender_name;
  sender_bank = tx.sender_bank;
  type = tx.type;
  status = tx.status;
  narration = tx.narration;
  created_at = tx.created_at;
}

abbrev pub line_of : Transaction → StatementLine
line_of tx = record {
  id = tx.id;
  amount = tx.amount;
  status = tx.status;
  sender_name = tx.sender_name;
  sender_bank = tx.sender_bank;
  merchant_tx_ref = tx.merchant_tx_ref;
  narration = tx.narration;
  created_at = tx.created_at;
}

-- The sum of the amounts of the transactions that are not misdirected.
unfoldable pub total_received_of : List Transaction → Decimal
total_received_of [] = pos 0
total_received_of (tx ∷ rest) =
    (if not (tx.status == misdirected) then tx.amount else pos 0) +ℤ total_received_of rest

unfoldable pub flagged_of : List Transaction → ℕ
flagged_of [] = 0
flagged_of (tx ∷ rest) = (if tx.status == partial then 1 else 0) + flagged_of rest

-- `_outstanding_balance(customer) or Decimal("0")`
abbrev pub or_zero : Option Decimal → Decimal
or_zero none = pos 0
or_zero (some d) = d

-- `dedicated_account_id=account.id`
abbrev pub booked_to : Uuid → Transaction → Bool
booked_to account_id t = elim t.dedicated_account_id [
  | none ↦ Bool.false
  | some id ↦ id == account_id
]

-- `math.ceil(total / limit)`, where the limit is not 0
abbrev pub ceil_div : ℕ → ℕ → ℕ
ceil_div total limit = (total + limit - 1) / limit

module _ (orm : Orm) where
  -- From the test `if not account` on.
  unfoldable pub owned_by : Uuid → Option DedicatedAccount → Action (DedicatedAccount × Customer)
  owned_by merchant_id none = raise (error_response 404 "Account not found" none)
  owned_by merchant_id (some account) = do
    customer ← fetch_customer orm account
    if not (customer.merchant_id == merchant_id)
        then raise (error_response 404 "Account not found" none)
        else pure (account, customer)

  -- The query and the tests at the start of both operations.
  unfoldable pub owned_account : Uuid → Uuid → Action (DedicatedAccount × Customer)
  owned_account account_id merchant_id = do
    account ← ask (λ w. orm.get_or_none DedicatedAccount (λ a. a.id == account_id) w.accounts)
    owned_by merchant_id account

-- `newest_first` stands for `order_by("-created_at")`.
module _ (orm : Orm) (newest_first : List Transaction → List Transaction) where
  unfoldable pub account_transactions : Uuid → World → List Transaction
  account_transactions account_id w =
      newest_first (orm.filter Transaction (booked_to account_id) w.transactions)

  unfoldable pub page_of : PaginateFilter → List Transaction → TransactionPage
  page_of filters query =
      let total = length query in
      let transactions =
        orm.offset_limit Transaction ((filters.page - 1) * filters.limit) filters.limit query in
      let items = map view_of transactions in
      record {
        page = filters.page;
        pages = max (ceil_div total filters.limit) 1;
        limit = filters.limit;
        total = total;
        count = length items;
        items = items;
      }

  unfoldable pub list_transactions : Uuid → Uuid → PaginateFilter → Action TransactionPage
  list_transactions account_id merchant_id filters = do
    (account, customer) ← owned_account orm account_id merchant_id
    ask (λ w. ok (page_of filters (account_transactions account.id w)))

  abbrev pub statement_of : DedicatedAccount → Customer → List Transaction → Statement
  statement_of account customer transactions = record {
    account_id = account.id;
    merchant_customer_id = customer.merchant_customer_id;
    customer_name = customer.name;
    account_number = account.account_number;
    target_amount = customer.target_amount;
    total_received = total_received_of transactions;
    wallet_balance = customer.wallet_balance;
    outstanding_balance = or_zero (outstanding_balance customer);
    flagged_short_payments = flagged_of transactions;
    status = customer_status customer;
    transactions = map line_of transactions;
  }

  unfoldable pub get_statement : Uuid → Uuid → Action Statement
  get_statement account_id merchant_id = do
    (account, customer) ← owned_account orm account_id merchant_id
    ask (λ w. ok (statement_of account customer (account_transactions account.id w)))
