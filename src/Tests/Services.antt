-- ===== src/Tests/Services.antt =====
-- The smaller services on the sample.
use ldb_backend_hack.Base.{
  ◌≡◌, ◌↔◌, refl, sym, ◌∙◌, pos, ◌+ℤ◌, arith, String, true, none, some, [], ◌∷◌, ◌++◌, inl, inr,
  ◌⊎◌, ℕ, ◌≤◌, suc, map, select, ◌==◌, nat_eq, ◌&&◌, string_eq, ==→eq,
}
use mathlib.Core.List.Perm as Perm
use ldb_backend_hack.Json.{Json, null}
use ldb_backend_hack.Model.{Decimal, partial, transaction_status_eq}
use ldb_backend_hack.Action.{Exception, ok, raised, ◌>>=◌, pure, raise, ask}
use ldb_backend_hack.Action.Steps.{ok_injective}
use ldb_backend_hack.Orm.Memory.{memory, memory-IsLawful}
use ldb_backend_hack.References.{hex, generate_reference}
use ldb_backend_hack.References.Draws.{HasNoLeadingZero, generate_reference_ends}
use ldb_backend_hack.Helpers.{customer_status, outstanding_balance, derive_transaction_status}
use ldb_backend_hack.Helpers.Status.{Describes, derive_transaction_status_lem}
use ldb_backend_hack.Helpers.Funding.{
  IsLeastDue, IsUnderpaid, outstanding_balance-IsLeastDue, customer_status_lem,
}
use ldb_backend_hack.Forwarder.{delivery_to, subscribed, payment_payload, emit_payment_received}
use ldb_backend_hack.Forwarder.Deliveries.{emit_payment_received_lem}
use ldb_backend_hack.Reconciliation.{process_payment, fetch_customer}
use ldb_backend_hack.Ledger.{Unchanged, IsBalanced, credited, credit_of}
use ldb_backend_hack.Webhooks.{receive}
use ldb_backend_hack.Webhooks.Once.{IsEntered}
use ldb_backend_hack.Webhooks.Interrupted.{process_payment_taken}
use ldb_backend_hack.Hooks.{nomba_webhook}
use ldb_backend_hack.Hooks.Signed.{IsSigned, nomba_webhook-IsSigned}
use ldb_backend_hack.Statements.{
  PaginateFilter, TransactionPage, page_of, list_transactions, Statement, get_statement,
  statement_of, account_transactions, owned_account, owned_by,
}
use ldb_backend_hack.Statements.Access.{IsOf, IsPageOf, list_transactions-IsOf}
use ldb_backend_hack.Statements.Totals.{get_statement-total}
use ldb_backend_hack.Nomba.{status_error}
use ldb_backend_hack.Customers.{CreateCustomer, customer_create}
use ldb_backend_hack.Customers.Creation.{customer_create_undone}
use ldb_backend_hack.Tests.{
  sample_runtime, sample_world, sample_payload, sample_customer, sample_account, half_paid, paid,
  paid_world, sample_gate,
}

derive_transaction_status_lem_example :
    (derive_transaction_status (pos 2500) (some (pos 5000)) ≡ partial)
    ↔ Describes partial (pos 2500) (some (pos 5000))
derive_transaction_status_lem_example =
    derive_transaction_status_lem (pos 2500) (some (pos 5000)) partial

outstanding_balance-IsLeastDue_example :
    (due : Decimal) × (outstanding_balance sample_customer ≡ some due)
    × IsLeastDue (pos 5000) (pos 0) due
outstanding_balance-IsLeastDue_example =
    outstanding_balance-IsLeastDue sample_customer (pos 5000) refl

customer_status_lem_example :
    (customer_status half_paid ≡ "Underpayment")
    ↔ IsUnderpaid (pos 2500) (outstanding_balance half_paid)
customer_status_lem_example = customer_status_lem half_paid

emit_payment_received_lem_example :
    let body =
      sample_runtime.dumps (payment_payload sample_runtime half_paid sample_account paid) in
    let rs =
      select subscribed (select (λ r. r.merchant_id == 7 && r.active) sample_world.registrations) in
    emit_payment_received memory sample_runtime 7 half_paid sample_account paid sample_world
    ≡ (ok tt, record sample_world { outbox = [] ++ map (delivery_to sample_runtime body) rs })
emit_payment_received_lem_example =
    emit_payment_received_lem memory memory-IsLawful sample_runtime (λ n d. tt) 7 half_paid
      sample_account paid sample_world

paid_IsBalanced : IsBalanced paid_world
unfolding credited credit_of transaction_status_eq nat_eq ◌+ℤ◌
paid_IsBalanced = record { keyed = (refl, tt); balanced = (refl, tt) }

abbrev paid_statement : Statement
paid_statement = statement_of memory (λ ts. ts) sample_account half_paid (paid ∷ [])

paid_get_statement :
    get_statement memory (λ ts. ts) 2 7 paid_world ≡ (ok paid_statement, paid_world)
unfolding get_statement account_transactions owned_account owned_by fetch_customer ◌>>=◌ pure ask
    nat_eq raise
paid_get_statement = refl

get_statement-total_example : paid_statement.total_received ≡ pos 2500
get_statement-total_example =
    get_statement-total memory memory-IsLawful (λ ts. ts) (λ ts. Perm.refl ts) 2 7 paid_world
      paid_world paid_statement paid_get_statement paid_IsBalanced
      (λ a known named b listed owner. elim listed [
        | inr never ↦ elim never [ ]
        | inl same ↦ elim known [ inr never ↦ elim never [ ] | inl first ↦ same ∙ sym first ]
      ])

generate_reference_ends_example :
    (n : ℕ) × (0 ≤ n)
    × (n ≤ 0)
    × HasNoLeadingZero (hex (sample_runtime.uuid n))
    × (generate_reference sample_runtime sample_world
        ≡ (ok (hex (sample_runtime.uuid n)), record sample_world { ticks = suc n }))
unfolding hex
generate_reference_ends_example =
    generate_reference_ends sample_runtime sample_world 0 (omega arith) (omega arith) refl

sample_compare : (a b : String) → sample_gate.compare_digest a b ≡ ok true → a ≡ b
sample_compare a b h = ==→eq a b (ok_injective h)

nomba_webhook-IsSigned_example :
    (IsSigned sample_gate "body" (some "digest")
      × (payload : Json) × (sample_gate.loads "body" ≡ ok payload)
      × (nomba_webhook sample_gate memory sample_runtime "body" (some "digest") sample_world
          ≡ receive memory sample_runtime payload sample_world))
    ⊎ ((e : Exception) × (nomba_webhook sample_gate memory sample_runtime "body"
            (some "digest")
            sample_world
          ≡ (raised e, sample_world)))
nomba_webhook-IsSigned_example =
    nomba_webhook-IsSigned sample_gate sample_compare memory sample_runtime "body" (some "digest")
      sample_world

abbrev sample_request : CreateCustomer
sample_request = record {
  merchant_customer_id = "C-2";
  name = "Bola";
  email = none;
  phone = none;
  target_amount = none;
  metadata = null;
}

customer_create_undone_example :
    (e : Exception) × (n : ℕ) × (customer_create memory sample_runtime
        (λ ref name. status_error 503 "busy")
        sample_request
        7
        sample_world
      ≡ (raised e, record sample_world { ticks = n }))
customer_create_undone_example =
    customer_create_undone memory memory-IsLawful sample_runtime
      (λ ref name. status_error 503 "busy") sample_request 7 sample_world tt

abbrev first_page : PaginateFilter
first_page = record { page = 1; limit = 20 }

abbrev paid_page : TransactionPage
paid_page = page_of memory (λ ts. ts) first_page (paid ∷ [])

paid_list_transactions :
    list_transactions memory (λ ts. ts) 2 7 first_page paid_world ≡ (ok paid_page, paid_world)
unfolding list_transactions account_transactions owned_account owned_by fetch_customer ◌>>=◌ pure
    ask nat_eq raise
paid_list_transactions = refl

list_transactions-IsOf_example :
    (paid_world ≡ paid_world)
    × IsOf paid_world 2 7
    × IsPageOf (λ ts. ts) 2 paid_world first_page paid_page
list_transactions-IsOf_example =
    list_transactions-IsOf memory memory-IsLawful (λ ts. ts) Perm.refl 2 7 paid_world paid_world
      first_page paid_page paid_list_transactions

sample_IsEntered : IsEntered "R-1" paid_world
unfolding string_eq
sample_IsEntered = refl

process_payment_taken_example :
    let (r, w') =
      process_payment memory sample_runtime "R-1" "payment_success" sample_payload paid_world in
    ((e : Exception) × (r ≡ raised e)) × Unchanged paid_world w'
process_payment_taken_example =
    process_payment_taken memory memory-IsLawful sample_runtime "R-1" "payment_success"
      sample_payload paid_world sample_IsEntered
