-- ===== src/Model/Enums.antt =====
-- app/enums/account.py and app/enums/transaction.py
use ldb_backend_hack.Base.{String, Eq}

pub data AccountStatus : Type 0 where
  active closed suspended : AccountStatus

pub data TransactionType : Type 0 where
  inbound : TransactionType

pub data TransactionStatus : Type 0 where
  full partial overpayment misdirected : TransactionStatus

AccountStatus-discrete : Discrete AccountStatus
AccountStatus-discrete = hlevel

TransactionStatus-discrete : Discrete TransactionStatus
TransactionStatus-discrete = hlevel

instance unfoldable pub account_status_eq : Eq AccountStatus
unfolding AccountStatus-discrete
account_status_eq = record { dec = AccountStatus-discrete }

instance unfoldable pub transaction_status_eq : Eq TransactionStatus
unfolding TransactionStatus-discrete
transaction_status_eq = record { dec = TransactionStatus-discrete }

-- `tx.status.value`
abbrev pub status_value : TransactionStatus → String
status_value full = "full"
status_value partial = "partial"
status_value overpayment = "overpayment"
status_value misdirected = "misdirected"
