-- ===== src/Helpers.antt =====
-- The pure functions of app/services/helpers.py. A `Decimal` comparison is exact.
pub mod Status
pub mod Funding
use ldb_backend_hack.Base.{ℤ, pos, ◌-ℤ◌, ltb_ℤ, leb_ℤ, String, Option, none, some, if◌then◌else◌}
use ldb_backend_hack.Model.{
  Customer, Decimal, TransactionStatus, full, partial, overpayment, misdirected,
}
use ldb_backend_hack.Runtime.{Runtime}

-- `_customer_status`, on the two fields that it reads
unfoldable pub status_of_funding : Option Decimal → Decimal → String
status_of_funding none balance = "Normal"
status_of_funding (some target) balance =
    if leb_ℤ target balance
    then "Normal"
    else if ltb_ℤ (pos 0) balance
    then "Underpayment"
    else "Normal"

unfoldable pub customer_status : Customer → String
unfolding status_of_funding
customer_status c = status_of_funding c.target_amount c.wallet_balance

-- `_outstanding_balance`, on the two fields that it reads
unfoldable pub outstanding_of_funding : Option Decimal → Decimal → Option Decimal
outstanding_of_funding none balance = none
outstanding_of_funding (some target) balance =
    let outstanding = target -ℤ balance in
    some (if ltb_ℤ (pos 0) outstanding then outstanding else pos 0)

unfoldable pub outstanding_balance : Customer → Option Decimal
unfolding outstanding_of_funding
outstanding_balance c = outstanding_of_funding c.target_amount c.wallet_balance

-- `_progress_percentage`, in hundredths of a percent, on the two fields that it reads
progress_of_funding : Runtime → Option Decimal → Decimal → Option ℤ
progress_of_funding rt none balance = none
progress_of_funding rt (some target) balance =
    if leb_ℤ target (pos 0)
    then none
    else let pct = rt.percentage balance target in
      some (if ltb_ℤ (pos 10000) pct then pos 10000 else pct)

unfoldable pub progress_percentage : Runtime → Customer → Option ℤ
unfolding progress_of_funding
progress_percentage rt c = progress_of_funding rt c.target_amount c.wallet_balance

unfoldable pub derive_transaction_status : Decimal → Option Decimal → TransactionStatus
derive_transaction_status received none = full
derive_transaction_status received (some target) =
    if leb_ℤ target received
    then (if ltb_ℤ target received then overpayment else full)
    else if ltb_ℤ (pos 0) received
    then partial
    else misdirected
