-- ===== src/Tests/Creation.antt =====
-- The creation of a customer on the sample, where Nomba gives the account.
use ldb_backend_hack.Base.{
  ◌≡◌, refl, ap, pos, [], ◌∷◌, ◌++◌, String, none, some, ◌^◌, ◌+◌, nat_eq, string_eq, remove_spaces,
}
use ldb_backend_hack.Json.{null, text, object, field, end, lookup, truthy, or_json}
use ldb_backend_hack.Model.{active, Customer, World}
use ldb_backend_hack.Action.{ok, raised, runtime_error, error_response, ◌>>=◌, pure, lift, ask}
use ldb_backend_hack.Customers.Stranded.{
  IsNewFor, StillHas, first_row, with_row, customer_create_stranded,
}
use ldb_backend_hack.Orm.Memory.{memory, memory-IsLawful}
use ldb_backend_hack.Runtime.{get_default, py_str, nullable_text, uuid4, clock}
use ldb_backend_hack.Tables.{create_customer, create_account}
use ldb_backend_hack.Helpers.{
  customer_status, status_of_funding, outstanding_balance, outstanding_of_funding,
  progress_percentage,
}
use ldb_backend_hack.Nomba.{Answer, responded, broken, create_virtual_account}
use ldb_backend_hack.Responses.{CustomerResponse, first_account, build_customer_response}
use ldb_backend_hack.Customers.{
  CreateCustomer, customer_create, unless_customer, unless_account, create_new, after_provisioning,
  create_dedicated_account, either_field, by_merchant_customer_id,
}
use ldb_backend_hack.Customers.Created.{IsCreated, customer_create-IsCreated}
use ldb_backend_hack.Tests.{sample_runtime, sample_world, sample_customer}

abbrev pub new_request : CreateCustomer
new_request = record {
  merchant_customer_id = "C-3";
  name = "Chi";
  email = none;
  phone = none;
  target_amount = none;
  metadata = null;
}

abbrev pub sample_nomba : String → String → Answer
sample_nomba ref name =
    responded 200 (object (field "data" (object (field "accountNumber" (text "90 02") end)) end))

abbrev pub new_response : CustomerResponse
new_response = record {
  id = 2 ^ 127;
  merchant_customer_id = "C-3";
  name = "Chi";
  email = none;
  phone = none;
  target_amount = none;
  wallet_balance = pos 0;
  outstanding_balance = none;
  progress_percentage = none;
  status = "Normal";
  metadata = null;
  dedicated_account =
      some (record {
        id = 2 ^ 127 + 1;
        account_number = "9002";
        account_name = "Chi";
        status = active;
      });
  created_at = 1001;
  updated_at = 1001;
}

sample_customer_create :
    (customer_create memory sample_runtime sample_nomba new_request 7 sample_world).0
    ≡ ok new_response
unfolding customer_create unless_customer unless_account create_new after_provisioning
    create_dedicated_account either_field by_merchant_customer_id first_account
    build_customer_response create_virtual_account customer_status status_of_funding
    outstanding_balance outstanding_of_funding progress_percentage create_customer create_account
    uuid4 clock get_default py_str nullable_text lookup truthy or_json remove_spaces nat_eq
    string_eq ◌>>=◌ pure lift ask
sample_customer_create = refl

customer_create-IsCreated_example :
    IsCreated sample_runtime sample_nomba new_request 7
      (customer_create memory sample_runtime sample_nomba new_request 7 sample_world).1
customer_create-IsCreated_example =
    customer_create-IsCreated memory memory-IsLawful sample_runtime sample_nomba new_request 7
      sample_world (customer_create memory sample_runtime sample_nomba new_request 7 sample_world).1
      new_response
      (ap
        (λ r.
          (r, (customer_create memory sample_runtime sample_nomba new_request 7 sample_world).1))
        sample_customer_create)

abbrev down : String → String → Answer
down ref name = broken (runtime_error "Nomba credentials are not configured")

sample_IsNewFor : IsNewFor sample_runtime 7 "C-3" sample_world
unfolding string_eq nat_eq
sample_IsNewFor = record { no_customer = refl; no_account = refl; no_id = refl }

-- A later state: another customer has come.
abbrev another : Customer
another = record sample_customer { id = 77; merchant_customer_id = "C-77" }

abbrev later_world : World
later_world =
    let w = with_row sample_runtime new_request 7 sample_world in
    record w { customers = w.customers ++ another ∷ []; ticks = 40 }

later-StillHas : StillHas (first_row sample_runtime new_request 7 sample_world) later_world
unfolding string_eq nat_eq
later-StillHas = record {
  before = sample_world.customers;
  after = another ∷ [];
  rows = refl;
  none_before = refl;
  none_after = refl;
}

customer_create_stranded_example :
    (customer_create memory sample_runtime down new_request 7 sample_world ≡ (
      raised (runtime_error "Nomba credentials are not configured"),
      with_row sample_runtime new_request 7 sample_world,
    ))
    × StillHas
        (first_row sample_runtime new_request 7 sample_world)
        (with_row sample_runtime new_request 7 sample_world)
    × (customer_create memory sample_runtime sample_nomba new_request 7 later_world ≡ (
      raised (error_response 409 "Customer with this merchant_customer_id already exists" none),
      later_world,
    ))
customer_create_stranded_example =
    customer_create_stranded memory memory-IsLawful sample_runtime down sample_nomba new_request
      new_request 7 sample_world later_world (runtime_error "Nomba credentials are not configured")
      refl sample_IsNewFor refl later-StillHas
