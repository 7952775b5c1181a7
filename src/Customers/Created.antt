-- ===== src/Customers/Created.antt =====
-- What the creation of a customer has stored when it returns.
use ldb_backend_hack.Base.{
  ℕ, true, ap, remove_spaces, ◌≡◌, refl, sym, subst, string_eq, nat_eq, String, Option, none, some,
  Elem, inl, inr, Bool-cases, pos,
}
use ldb_backend_hack.Json.{Json, object, end, Fields, truthy, or_json}
use ldb_backend_hack.Runtime.Dicts.{got, data_in}
use ldb_backend_hack.Model.{World, Customer, DedicatedAccount, Uuid, active}
use ldb_backend_hack.Action.{ok}
use ldb_backend_hack.Action.Hoare.{Hoare, Hoare-bind, Hoare-raise, Hoare-any}
use ldb_backend_hack.Orm.{Orm, IsLawful}
use ldb_backend_hack.Orm.Memory.{memory, lawful-eq-memory}
use ldb_backend_hack.Runtime.{Runtime, py_str}
use ldb_backend_hack.Nomba.{Answer, responded, NombaResult}
use ldb_backend_hack.Responses.{CustomerResponse, build_customer_response}
use ldb_backend_hack.Customers.{
  CreateCustomer, create_dedicated_account, after_provisioning, create_new, unless_account,
  unless_customer, customer_create,
}
use ldb_backend_hack.Customers.Steps.{
  IsResult, IsField, uuid4-On, clock-On, either_field-On, either_field-IsField,
  create_virtual_account-On, build_customer_response-On, create_customer-On, create_account-On,
}

-- The text is the account number in Nomba's answer, with its spaces removed.
abbrev pub IsNumber : Runtime → Answer → String → Type 0
IsNumber rt answer shown =
    (code : ℕ) × (fields : Fields) × (inner : Fields) × (answer ≡ responded code (object fields))
    × (or_json (data_in fields) (object end) ≡ object inner)
    × (truthy (or_json (got "accountNumber" inner) (got "bankAccountNumber" inner)) ≡ true)
    × (shown
        ≡ remove_spaces
            (py_str rt (or_json (got "accountNumber" inner) (got "bankAccountNumber" inner))))

-- The customer of the request with an empty wallet, and an open account of its own under the number
-- that Nomba has answered.
pub record IsCreated (rt : Runtime) (nomba : String → String → Answer) (body : CreateCustomer)
    (merchant_id : Uuid) (w : World) : Type 0 where
  pub customer : Customer
  pub account : DedicatedAccount
  pub customer_stored : Elem customer w.customers
  pub account_stored : Elem account w.accounts
  pub merchant : customer.merchant_id ≡ merchant_id
  pub customer_ref : customer.merchant_customer_id ≡ body.merchant_customer_id
  pub name : customer.name ≡ body.name
  pub email : customer.email ≡ body.email
  pub phone : customer.phone ≡ body.phone
  pub metadata : customer.metadata ≡ body.metadata
  pub target : customer.target_amount ≡ body.target_amount
  pub empty : customer.wallet_balance ≡ pos 0
  pub owner : account.customer_id ≡ customer.id
  pub ref : account.account_ref ≡ body.merchant_customer_id
  pub account_name : account.account_name ≡ body.name
  pub number : IsNumber rt (nomba body.merchant_customer_id body.name) account.account_number
  pub is_active : account.status ≡ active

abbrev IsNew : CreateCustomer → Uuid → Customer → Type 0
IsNew body merchant_id c =
    (c.merchant_id ≡ merchant_id)
    × (c.merchant_customer_id ≡ body.merchant_customer_id)
    × (c.name ≡ body.name)
    × (c.email ≡ body.email)
    × (c.phone ≡ body.phone)
    × (c.metadata ≡ body.metadata)
    × (c.target_amount ≡ body.target_amount)
    × (c.wallet_balance ≡ pos 0)

module _ (rt : Runtime) (nomba : String → String → Answer) (body : CreateCustomer)
    (merchant_id : Uuid) where
  abbrev Created : World → Type 0
  Created = IsCreated rt nomba body merchant_id

  abbrev HasNumber : String → Type 0
  HasNumber = IsNumber rt (nomba body.merchant_customer_id body.name)

  response-On :
      (c : Customer) (b : DedicatedAccount)
      → IsNew body merchant_id c
      → b.customer_id ≡ c.id
      → b.account_ref ≡ body.merchant_customer_id
      → b.account_name ≡ body.name
      → HasNumber b.account_number
      → b.status ≡ active
      → Hoare
          (λ w. Elem c w.customers × Elem b w.accounts)
          (build_customer_response memory rt c)
          (λ r. Created)
  response-On c b (merchant, customer_ref, name, email, phone, metadata, target, empty) owner ref
        account_name number is_active =
      record {
        gives = λ w w' r h e.
            let k =
              (build_customer_response-On (λ cs rs. Elem c cs × Elem b rs) rt c).gives w w' r h e in
            record {
              customer = c;
              account = b;
              customer_stored = k.0;
              account_stored = k.1;
              merchant = merchant;
              customer_ref = customer_ref;
              name = name;
              email = email;
              phone = phone;
              metadata = metadata;
              target = target;
              empty = empty;
              owner = owner;
              ref = ref;
              account_name = account_name;
              number = number;
              is_active = is_active;
            };
      }

  create_dedicated_account-On :
      (c : Customer) (va_data account_number : Json)
      → IsNew body merchant_id c
      → (truthy account_number ≡ true → HasNumber (remove_spaces (py_str rt account_number)))
      → Hoare
          (λ w. Elem c w.customers)
          (create_dedicated_account memory rt nomba body c va_data account_number)
          (λ r. Created)
  unfolding create_dedicated_account
  create_dedicated_account-On c va_data account_number new number =
      elim (Bool-cases (truthy account_number)) [
        | inr missing ↦ rw missing (Hoare-bind _ _ (Hoare-any _) (λ _. Hoare-raise _))
        | inl given ↦ rw given (
            Hoare-bind _ _ (uuid4-On (λ cs rs. Elem c cs) rt) (λ id.
              Hoare-bind _ _ (either_field-On (λ cs rs. Elem c cs) "id" "accountId" va_data)
                (λ va_id. Hoare-bind _ _ (clock-On (λ cs rs. Elem c cs) rt) (λ t.
                  Hoare-bind _ _ (create_account-On (λ cs. Elem c cs) _)
                    (λ a. response-On c _ new refl refl refl (number given) refl)))))
      ]

  -- The number that is read from the data of a result.
  number_of :
      (r : NombaResult) (k : Json)
      → IsResult (nomba body.merchant_customer_id body.name) r
      → r.success ≡ true
      → IsField "accountNumber" "bankAccountNumber" (or_json r.body (object end)) k
      → truthy k ≡ true
      → HasNumber (remove_spaces (py_str rt k))
  number_of r k result success (inner, dict, read) given =
      let (code, fields, answered, found) = result success in
      (
        code,
        fields,
        inner,
        answered,
        subst (λ d. or_json d (object end) ≡ object inner) found dict,
        subst (λ j. truthy j ≡ true) read given,
        ap (λ j. remove_spaces (py_str rt j)) read,
      )

  after_provisioning-On :
      (c : Customer) (r : NombaResult)
      → IsNew body merchant_id c
      → IsResult (nomba body.merchant_customer_id body.name) r
      → Hoare (λ w. Elem c w.customers) (after_provisioning memory rt nomba body c r) (λ x. Created)
  unfolding after_provisioning
  after_provisioning-On c r new result = elim (Bool-cases r.success) [
    | inr failed ↦ rw failed (Hoare-bind _ _ (Hoare-any _) (λ _. Hoare-raise _))
    | inl success ↦ rw success (
        Hoare-bind _ _ (either_field-IsField (λ cs rs. Elem c cs) _ _ _) (λ k. record {
          gives = λ w w' x h e.
              (create_dedicated_account-On c _ k new (number_of r k result success h.0)).gives w w'
                x h.1 e;
        }))
  ]

  create_new-On : Hoare (λ w. Unit {0}) (create_new memory rt nomba body merchant_id) (λ x. Created)
  unfolding create_new
  create_new-On = Hoare-bind _ _ (uuid4-On (λ cs rs. Unit {0}) rt) (λ id.
      Hoare-bind _ _ (clock-On (λ cs rs. Unit {0}) rt) (λ t.
        Hoare-bind _ _ (create_customer-On _) (λ c. record {
          gives = λ w w' x h e.
              (Hoare-bind _ (after_provisioning memory rt nomba body c)
                  (create_virtual_account-On (λ cs rs. Elem c cs)
                    (nomba body.merchant_customer_id body.name))
                  (λ r. record {
                    gives = λ v v' y k e'.
                        (after_provisioning-On c r
                            (subst (IsNew body merchant_id) (sym h.0)
                              (refl, refl, refl, refl, refl, refl, refl, refl))
                            k.0).gives
                          v v' y k.1 e';
                  })).gives
                w w' x (subst (λ u. Elem u w.customers) (sym h.0) h.1) e;
        })))

  unless_account-On :
      (o : Option DedicatedAccount)
      → Hoare (λ w. Unit {0}) (unless_account memory rt nomba body merchant_id o) (λ x. Created)
  unfolding unless_account
  unless_account-On (some a) = Hoare-raise _
  unless_account-On none = create_new-On

  unless_customer-On :
      (o : Option Customer)
      → Hoare (λ w. Unit {0}) (unless_customer memory rt nomba body merchant_id o) (λ x. Created)
  unfolding unless_customer
  unless_customer-On (some c) = Hoare-raise _
  unless_customer-On none = Hoare-bind _ _ (Hoare-any _) unless_account-On

  customer_create-On :
      Hoare (λ w. Unit {0}) (customer_create memory rt nomba body merchant_id) (λ x. Created)
  unfolding customer_create
  customer_create-On = Hoare-bind _ _ (Hoare-any _) unless_customer-On

-- Over any lawful ORM, a creation that returns has stored a customer with the reference, name, email,
-- phone, metadata and target of the request, for the calling merchant and with an empty wallet, and
-- an active account of that customer under the same reference and name, whose number is the account
-- number in Nomba's answer, which has one, less its spaces.
pub customer_create-IsCreated :
    (orm : Orm) (laws : IsLawful orm) (rt : Runtime) (nomba : String → String → Answer)
    (body : CreateCustomer) (merchant_id : Uuid) (w w' : World) (r : CustomerResponse)
    → customer_create orm rt nomba body merchant_id w ≡ (ok r, w')
    → IsCreated rt nomba body merchant_id w'
customer_create-IsCreated orm laws rt nomba body merchant_id w w' r h =
    (customer_create-On rt nomba body merchant_id).gives w w' r tt
      (rw (lawful-eq-memory orm laws) at h)
