-- ===== src/Customers/Profile.antt =====
-- app/services/customers.py: the lookup of a customer, its profile and its update.
use ldb_backend_hack.Base.{String, ◌==◌, nat_eq, ◌&&◌, Option, none, some}
use ldb_backend_hack.Model.{Customer, DedicatedAccount, Uuid}
use ldb_backend_hack.Action.{Action, pure, raise, ask, error_response, ◌>>=◌, ◌>>◌}
use ldb_backend_hack.Orm.{Orm}
use ldb_backend_hack.Runtime.{Runtime, clock}
use ldb_backend_hack.Tables.{save_customer, save_account}
use ldb_backend_hack.Nomba.{Answer, update_account_name}
use ldb_backend_hack.Responses.{CustomerResponse, first_account, build_customer_response}
use ldb_backend_hack.Customers.{UpdateCustomer, or_keep, or_keep_option, by_merchant_customer_id}

-- The assignments of `update`, one for each field of the request that is not `None`.
unfoldable pub updated : UpdateCustomer → Customer → Customer
updated body customer = record customer {
  name = or_keep body.name customer.name;
  email = or_keep_option body.email customer.email;
  phone = or_keep_option body.phone customer.phone;
  target_amount = or_keep_option body.target_amount customer.target_amount;
  metadata = or_keep body.metadata customer.metadata;
}

module _ (orm : Orm) (parse_uuid : String → Option Uuid) where
  -- The first query of `_resolve_customer`.
  unfoldable pub by_id : Uuid → Option Uuid → Action (Option Customer)
  by_id merchant_id none = pure none
  by_id merchant_id (some id) =
      ask (λ w.
        orm.get_or_none Customer (λ c. c.id == id && c.merchant_id == merchant_id) w.customers)

  unfoldable pub or_by_merchant_id : String → Uuid → Option Customer → Action (Option Customer)
  or_by_merchant_id customer_id merchant_id (some customer) = pure (some customer)
  or_by_merchant_id customer_id merchant_id none =
      by_merchant_customer_id orm merchant_id customer_id

  -- `_resolve_customer`
  unfoldable pub resolve_customer : String → Uuid → Action (Option Customer)
  resolve_customer customer_id merchant_id =
      by_id merchant_id (parse_uuid customer_id) >>= or_by_merchant_id customer_id merchant_id

module _ (orm : Orm) (rt : Runtime) (parse_uuid : String → Option Uuid) where
  unfoldable pub show_customer : Option Customer → Action CustomerResponse
  show_customer none = raise (error_response 404 "Customer not found" none)
  show_customer (some customer) = build_customer_response orm rt customer

  -- `CustomerService.get`
  unfoldable pub customer_get : String → Uuid → Action CustomerResponse
  customer_get customer_id merchant_id =
      resolve_customer orm parse_uuid customer_id merchant_id >>= show_customer

-- `nomba_update` stands for the HTTP call, which is given the reference and the new name.
module _ (orm : Orm) (rt : Runtime) (nomba_update : String → String → Answer) where
  unfoldable pub rename_account : String → Option DedicatedAccount → Action (Unit {0})
  rename_account name none = pure tt
  rename_account name (some account) = do
    t ← clock rt
    account ← save_account orm (record account { account_name = name; updated_at = t })
    update_account_name (nomba_update account.account_ref name)
    pure tt

  unfoldable pub rename : Option String → Customer → Action (Unit {0})
  rename none customer = pure tt
  rename (some name) customer = first_account orm customer >>= rename_account name

  unfoldable pub update_found : UpdateCustomer → Option Customer → Action CustomerResponse
  update_found body none = raise (error_response 404 "Customer not found" none)
  update_found body (some found) = do
    t ← clock rt
    customer ← save_customer orm (record (updated body found) { updated_at = t })
    rename body.name customer
    build_customer_response orm rt customer

  -- `CustomerService.update`
  unfoldable pub customer_update :
      (String → Option Uuid) → String → UpdateCustomer → Uuid → Action CustomerResponse
  customer_update parse_uuid customer_id body merchant_id =
      resolve_customer orm parse_uuid customer_id merchant_id >>= update_found body
