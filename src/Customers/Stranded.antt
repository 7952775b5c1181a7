-- ===== src/Customers/Stranded.antt =====
-- What the creation of a customer leaves behind when the call of Nomba ends in an exception that
-- the client does not catch.
use ldb_backend_hack.Base.{
  ◌≡◌, refl, ap, ◌∙◌, ◌==◌, nat_eq, string_eq, ==_refl, ==_comm, Bool, false, ◌&&◌, String, none,
  some, List, [], ◌∷◌, ◌++◌, any, select, select-eq-nil, select-append, head?, pos, ◌+◌, arith,
}
use ldb_backend_hack.Model.{World, Customer, Uuid, customer_conflict}
use ldb_backend_hack.Action.{Exception, ok, raised, raise, ask, error_response}
use ldb_backend_hack.Action.Steps.{bind_ok, bind_raised}
use ldb_backend_hack.Orm.{Orm, IsLawful, at_most_one}
use ldb_backend_hack.Orm.Memory.{memory, lawful-eq-memory}
use ldb_backend_hack.Runtime.{Runtime, uuid4, clock}
use ldb_backend_hack.Tables.{create_customer}
use ldb_backend_hack.Tables.Memory.{create_customer_new}
use ldb_backend_hack.Nomba.{Answer, broken, create_virtual_account}
use ldb_backend_hack.Customers.{
  CreateCustomer, create_new, unless_account, unless_customer, by_merchant_customer_id,
  customer_create,
}

-- The request has no customer and no account yet, and the id that is drawn is new.
pub record IsNewFor (rt : Runtime) (merchant_id : Uuid) (merchant_customer_id : String) (w : World)
    : Type 0 where
  pub no_customer :
      any
        (λ c. c.merchant_id == merchant_id && c.merchant_customer_id == merchant_customer_id)
        w.customers
      ≡ false
  pub no_account : any (λ a. a.account_ref == merchant_customer_id) w.accounts ≡ false
  pub no_id : any (λ c. c.id == rt.uuid w.ticks) w.customers ≡ false

-- The row that `create` writes before it calls Nomba.
abbrev pub first_row : Runtime → CreateCustomer → Uuid → World → Customer
first_row rt body merchant_id w = record {
  id = rt.uuid w.ticks;
  merchant_id = merchant_id;
  merchant_customer_id = body.merchant_customer_id;
  name = body.name;
  email = body.email;
  phone = body.phone;
  target_amount = body.target_amount;
  wallet_balance = pos 0;
  metadata = body.metadata;
  created_at = rt.now (w.ticks + 1);
  updated_at = rt.now (w.ticks + 1);
}

-- The state with that row.
abbrev pub with_row : Runtime → CreateCustomer → Uuid → World → World
with_row rt body merchant_id w = record w {
  customers = w.customers ++ first_row rt body merchant_id w ∷ [];
  ticks = w.ticks + 1;
}

no_conflict :
    (c : Customer) (rows : List Customer)
    → any
        (λ d. d.merchant_id == c.merchant_id && d.merchant_customer_id == c.merchant_customer_id)
        rows
      ≡ false
    → any (λ d. d.id == c.id) rows ≡ false
    → any (customer_conflict c) rows ≡ false
no_conflict c [] h k = refl
no_conflict c (d ∷ rows) h k = ground (
  arith,
  no_conflict c rows,
  ==_comm c.id d.id,
  ==_comm c.merchant_id d.merchant_id,
  ==_comm c.merchant_customer_id d.merchant_customer_id,
)

module _ (rt : Runtime) (nomba : String → String → Answer) (body : CreateCustomer) (m : Uuid)
    (w : World) where
  create_new_broken :
      (e : Exception)
      → nomba body.merchant_customer_id body.name ≡ broken e
      → IsNewFor rt m body.merchant_customer_id w
      → create_new memory rt nomba body m w ≡ (raised e, with_row rt body m w)
  unfolding create_new uuid4 clock create_virtual_account raise
  create_new_broken e answered new =
      let c = first_row rt body m w in
      let drawn = record w { ticks = w.ticks + 1 } in
      bind_ok (uuid4 rt) _ refl
      ∙ bind_ok (clock rt) _ refl
      ∙ bind_ok (create_customer memory c) _
          (create_customer_new c drawn (no_conflict c w.customers new.no_customer new.no_id))
      ∙ bind_raised (create_virtual_account (nomba body.merchant_customer_id body.name)) _
          (rw answered refl)

  customer_create_broken :
      (e : Exception)
      → nomba body.merchant_customer_id body.name ≡ broken e
      → IsNewFor rt m body.merchant_customer_id w
      → customer_create memory rt nomba body m w ≡ (raised e, with_row rt body m w)
  unfolding customer_create by_merchant_customer_id unless_customer unless_account ask
  customer_create_broken e answered new =
      bind_ok (by_merchant_customer_id memory m body.merchant_customer_id)
        (unless_customer memory rt nomba body m)
        (ap (λ rows. (at_most_one rows, w)) (select-eq-nil _ w.customers new.no_customer))
      ∙ bind_ok _ (unless_account memory rt nomba body m)
          (ap (λ rows. (ok (head? rows), w)) (select-eq-nil _ w.accounts new.no_account))
      ∙ create_new_broken e answered new

-- A customer under the ids of the request.
abbrev pub is_under : Uuid → String → Customer → Bool
is_under merchant_id merchant_customer_id c =
    c.merchant_id == merchant_id && c.merchant_customer_id == merchant_customer_id

-- The state still has the row, and no other customer under its ids.
pub record StillHas (row : Customer) (v : World) : Type 0 where
  pub before : List Customer
  pub after : List Customer
  pub rows : v.customers ≡ before ++ row ∷ after
  pub none_before : any (is_under row.merchant_id row.merchant_customer_id) before ≡ false
  pub none_after : any (is_under row.merchant_id row.merchant_customer_id) after ≡ false

-- The row is the one that a further request finds.
found_again :
    (row : Customer) (v : World)
    → StillHas row v
    → select (is_under row.merchant_id row.merchant_customer_id) v.customers ≡ row ∷ []
found_again row v h =
    rw
      (
        h.rows,
        select-append (is_under row.merchant_id row.merchant_customer_id) h.before (row ∷ h.after),
        select-eq-nil _ h.before h.none_before,
        ==_refl row.merchant_id,
        ==_refl row.merchant_customer_id,
        select-eq-nil _ h.after h.none_after,
      )
      refl

retry_refused :
    (rt : Runtime) (again : String → String → Answer) (retry : CreateCustomer) (row : Customer)
    (v : World)
    → retry.merchant_customer_id ≡ row.merchant_customer_id
    → StillHas row v
    → customer_create memory rt again retry row.merchant_id v ≡ (
      raised (error_response 409 "Customer with this merchant_customer_id already exists" none),
      v,
    )
unfolding customer_create by_merchant_customer_id unless_customer ask raise
retry_refused rt again retry row v same h =
    let found : by_merchant_customer_id memory row.merchant_id retry.merchant_customer_id v
        ≡ (ok (some row), v) =
      rw same (ap (λ rows. (at_most_one rows, v)) (found_again row v h)) in
    bind_ok (by_merchant_customer_id memory row.merchant_id retry.merchant_customer_id)
      (unless_customer memory rt again retry row.merchant_id) found

-- The state that the failure leaves is one of these.
with_row-StillHas :
    (rt : Runtime) (body : CreateCustomer) (m : Uuid) (w : World)
    → IsNewFor rt m body.merchant_customer_id w
    → StillHas (first_row rt body m w) (with_row rt body m w)
with_row-StillHas rt body m w new = record {
  before = w.customers;
  after = [];
  rows = refl;
  none_before = new.no_customer;
  none_after = refl;
}

-- Over any lawful ORM, if the call of Nomba ends in an exception that the client does not catch,
-- such as a failed login, then the creation of a new customer raises that exception, and the
-- customer stays stored without an account, as the only one under its ids; and in every state that
-- still has this row as the only one under its ids, whatever else is in the tables and whatever Nomba
-- answers then, a creation under the same ids is refused with status 409 and changes nothing.
pub customer_create_stranded :
    (orm : Orm) (laws : IsLawful orm) (rt : Runtime) (nomba again : String → String → Answer)
    (body retry : CreateCustomer) (merchant_id : Uuid) (w v : World) (e : Exception)
    → nomba body.merchant_customer_id body.name ≡ broken e
    → IsNewFor rt merchant_id body.merchant_customer_id w
    → retry.merchant_customer_id ≡ body.merchant_customer_id
    → StillHas (first_row rt body merchant_id w) v
    → (customer_create orm rt nomba body merchant_id w ≡ (raised e, with_row rt body merchant_id w))
      × StillHas (first_row rt body merchant_id w) (with_row rt body merchant_id w)
      × (customer_create orm rt again retry merchant_id v ≡ (
        raised (error_response 409 "Customer with this merchant_customer_id already exists" none),
        v,
      ))
customer_create_stranded orm laws rt nomba again body retry merchant_id w v e answered new same h =
    rw (lawful-eq-memory orm laws) (
      customer_create_broken rt nomba body merchant_id w e answered new,
      with_row-StillHas rt body merchant_id w new,
      retry_refused rt again retry (first_row rt body merchant_id w) v same h,
    )
