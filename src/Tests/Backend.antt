-- ===== src/Tests/Backend.antt =====
-- A short life of the backend: a customer is created, and money arrives.
use mathlib.Core.List.Perm as Perm
use ldb_backend_hack.Base.{
  ◌≡◌, refl, ◌^◌, ◌+◌, pos, arith, none, some, false, [], nat_eq, string_eq, ==→eq, remove_spaces,
}
use ldb_backend_hack.Json.{null, lookup, truthy, or_json}
use ldb_backend_hack.Model.{World, Customer, DedicatedAccount, active, transaction_status_eq}
use ldb_backend_hack.Action.{ok, ◌>>=◌, pure, raise, lift, ask}
use ldb_backend_hack.Orm.Memory.{memory, memory-IsLawful}
use ldb_backend_hack.Runtime.{get_default, py_str, nullable_text, uuid4, clock}
use ldb_backend_hack.Tables.{create_customer, create_account}
use ldb_backend_hack.Nomba.{create_virtual_account, status_error}
use ldb_backend_hack.Responses.{first_account, build_customer_response}
use ldb_backend_hack.Reconciliation.{fetch_customer}
use ldb_backend_hack.Customers.{
  customer_create, unless_customer, unless_account, create_new, after_provisioning,
  create_dedicated_account, either_field, by_merchant_customer_id,
}
use ldb_backend_hack.Statements.{
  Statement, get_statement, statement_of, account_transactions, owned_account, owned_by,
}
use ldb_backend_hack.Webhooks.{SimulateFunding}
use ldb_backend_hack.Api.{
  Outside, bearer, customers, accounts, hooks, post_customers, post_simulate, get_account,
  default_merchant, get_merchant_from_bearer, customer_controller, controller, serve, answer,
}
use ldb_backend_hack.Api.Access.{IsGuarded, answer-IsGuarded}
use ldb_backend_hack.Hooks.Signed.{IsSound}
use ldb_backend_hack.Action.Steps.{ok_injective}
use ldb_backend_hack.Ledger.Sound.Payments.{Sound}
use ldb_backend_hack.System.{Reach, start, next, request, empty_world}
use ldb_backend_hack.System.Invariant.{Reach-Sound, get_statement-Reach}
use ldb_backend_hack.Tests.{sample_runtime, sample_world, sample_gate}
use ldb_backend_hack.Tests.Creation.{new_request, sample_nomba}

abbrev sample_outside : Outside
sample_outside = record {
  settings = record { ldb_api_key = "api-key"; default_merchant_id = some 7 };
  gate = sample_gate;
  nomba = sample_nomba;
  nomba_update = λ ref name. status_error 503 "busy";
  parse_uuid = λ s. none;
  newest_first = λ ts. ts;
}

sample_gate-IsSound : IsSound sample_outside.gate
sample_gate-IsSound a b h = ==→eq a b (ok_injective h)

answer-IsGuarded_example :
    IsGuarded memory sample_runtime sample_outside
      (bearer "guess" (accounts (get_account 2)))
      sample_world
answer-IsGuarded_example =
    answer-IsGuarded memory sample_runtime sample_outside sample_gate-IsSound
      (bearer "guess" (accounts (get_account 2))) sample_world

abbrev created : World
created =
    (answer memory sample_runtime sample_outside
      (bearer "api-key" (customers (post_customers new_request))) empty_world).1

created-Reach : Reach memory sample_runtime created
created-Reach =
    next start
      (request sample_outside (bearer "api-key" (customers (post_customers new_request))) tt)

abbrev sample_transfer : SimulateFunding
sample_transfer = record {
  account_number = "9002";
  amount = pos 2500;
  sender_name = "Ada";
  sender_bank = "GTBank";
  misdirected = false;
}

abbrev funded : World
funded =
    (answer memory sample_runtime sample_outside
      (bearer "api-key" (hooks (post_simulate sample_transfer))) created).1

Reach-Sound_example : Sound funded
Reach-Sound_example =
    Reach-Sound memory memory-IsLawful sample_runtime (λ d h. h) funded
      (next created-Reach (
        request sample_outside (bearer "api-key" (hooks (post_simulate sample_transfer)))
          (omega arith)))

-- The rows that the creation leaves.
abbrev new_customer : Customer
new_customer = record {
  id = 2 ^ 127;
  merchant_id = 7;
  merchant_customer_id = "C-3";
  name = "Chi";
  email = none;
  phone = none;
  target_amount = none;
  wallet_balance = pos 0;
  metadata = null;
  created_at = 1001;
  updated_at = 1001;
}

abbrev new_account : DedicatedAccount
new_account = record {
  id = 2 ^ 127 + 1;
  customer_id = 2 ^ 127;
  nomba_va_id = none;
  account_number = "9002";
  account_name = "Chi";
  account_ref = "C-3";
  status = active;
  created_at = 1002;
  updated_at = 1002;
}

abbrev created_statement : Statement
created_statement = statement_of memory (λ ts. ts) new_account new_customer []

get_statement-created :
    get_statement memory (λ ts. ts) (2 ^ 127 + 1) 7 created ≡ (ok created_statement, created)
unfolding answer serve controller customer_controller get_merchant_from_bearer default_merchant
    customer_create unless_customer unless_account create_new after_provisioning
    create_dedicated_account either_field by_merchant_customer_id first_account
    build_customer_response create_virtual_account create_customer create_account uuid4 clock
    get_default py_str nullable_text lookup truthy or_json remove_spaces nat_eq string_eq ◌>>=◌ pure
    raise lift ask get_statement account_transactions owned_account owned_by fetch_customer
get_statement-created = refl

get_statement-Reach_example : created_statement.total_received ≡ created_statement.wallet_balance
get_statement-Reach_example =
    get_statement-Reach memory memory-IsLawful sample_runtime (λ d h. h) (λ ts. ts)
      (λ ts. Perm.refl ts) (2 ^ 127 + 1) 7 created created created_statement created-Reach
      get_statement-created
