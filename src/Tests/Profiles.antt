-- ===== src/Tests/Profiles.antt =====
-- Profiles and pages on the sample.
use ldb_backend_hack.Base.{◌≡◌, ◌⊎◌, String, Option, none, some, [], ◌∷◌, map, arith}
use ldb_backend_hack.Action.Safe.{Ends}
use ldb_backend_hack.Orm.Memory.{memory, memory-IsLawful}
use ldb_backend_hack.Nomba.{Answer, status_error}
use ldb_backend_hack.Accounts.{CreateDedicatedAccount, create_dedicated}
use ldb_backend_hack.Accounts.Opened.{IsOpened, create_dedicated-IsOpened}
use ldb_backend_hack.Ledger.{Unchanged}
use ldb_backend_hack.Model.{Uuid, World}
use ldb_backend_hack.Customers.{UpdateCustomer}
use ldb_backend_hack.Customers.Profile.{customer_get, customer_update}
use ldb_backend_hack.Customers.Shown.{IsProfile, customer_get-IsProfile}
use ldb_backend_hack.Customers.Updated.{IsUpdated, customer_update-IsUpdated}
use ldb_backend_hack.Statements.{PaginateFilter, view_of, page_of}
use ldb_backend_hack.Statements.Pages.{items_until, page_of_all}
use ldb_backend_hack.Tests.{sample_runtime, sample_world, paid}

abbrev no_uuid : String → Option Uuid
no_uuid s = none

customer_get-IsProfile_example :
    Ends
      (λ r w'. IsProfile no_uuid "C-1" 7 sample_world r × (w' ≡ sample_world))
      (λ w'. w' ≡ sample_world)
      (customer_get memory sample_runtime no_uuid "C-1" 7 sample_world)
customer_get-IsProfile_example =
    customer_get-IsProfile memory memory-IsLawful sample_runtime no_uuid "C-1" 7 sample_world

abbrev new_name : UpdateCustomer
new_name = record {
  name = some "Ada L.";
  email = none;
  phone = none;
  target_amount = none;
  metadata = none;
}

abbrev busy : String → String → Answer
busy ref name = status_error 503 "busy"

customer_update-IsUpdated_example :
    Ends
      (λ r w'. IsUpdated no_uuid "C-1" 7 new_name sample_world w')
      (λ w'. (w' ≡ sample_world) ⊎ IsUpdated no_uuid "C-1" 7 new_name sample_world w')
      (customer_update memory sample_runtime busy no_uuid "C-1" new_name 7 sample_world)
customer_update-IsUpdated_example =
    customer_update-IsUpdated memory memory-IsLawful sample_runtime busy no_uuid "C-1" new_name 7
      sample_world

abbrev without_account : World
without_account = record sample_world { accounts = [] }

abbrev for_customer : CreateDedicatedAccount
for_customer = record { merchant_customer_id = "C-1"; account_name = none }

create_dedicated-IsOpened_example :
    Ends
      (IsOpened for_customer 7 without_account)
      (Unchanged without_account)
      (create_dedicated memory sample_runtime busy for_customer 7 without_account)
create_dedicated-IsOpened_example =
    create_dedicated-IsOpened memory memory-IsLawful sample_runtime busy for_customer 7
      without_account

abbrev small_page : PaginateFilter
small_page = record { page = 1; limit = 1 }

page_of_all_example :
    items_until memory
      (λ ts. ts)
      1
      (paid ∷ paid ∷ [])
      (page_of memory (λ ts. ts) small_page (paid ∷ paid ∷ [])).pages
    ≡ map view_of (paid ∷ paid ∷ [])
page_of_all_example =
    page_of_all memory memory-IsLawful (λ ts. ts) small_page (paid ∷ paid ∷ []) (omega arith)
