-- ===== src/Tests/Payments.antt =====
-- Deliveries of webhooks on the sample.
use ldb_backend_hack.Base.{
  ◌≡◌, refl, sym, ap, subst, pos, ◌≤ℤ◌, arith, String, some, ◌⊎◌, remove_spaces, ◌+ℤ◌, ◌-ℤ◌, ◌^◌,
  false, string_eq, nat_eq,
}
use ldb_backend_hack.Json.{text, truthy, or_json, lookup}
use ldb_backend_hack.Model.{World, partial, transaction_status_eq, account_status_eq}
use ldb_backend_hack.Action.{ok, ◌>>=◌, pure, raise, lift, ask}
use ldb_backend_hack.Action.Steps.{ok_injective}
use ldb_backend_hack.Orm.Memory.{memory, memory-IsLawful}
use ldb_backend_hack.Runtime.{get_default, py_str, nullable_text, decimal_of, uuid4, clock}
use ldb_backend_hack.Reconciliation.{
  Payment, read_payment, reference_or_new, account_number_of, process_payment, Outcome,
  route_payment, credit_payment, credit_wallet, finish_credit, find_account, after_number,
  find_by_ref, get_by_number, fetch_customer, decision_for_status,
}
use ldb_backend_hack.Helpers.{
  derive_transaction_status, outstanding_balance, outstanding_of_funding,
}
use ldb_backend_hack.Forwarder.{
  emit_payment_received, deliver_payment, deliver_all, deliver, registrations_of, subscribed,
  payment_payload, delivery_to, target_text,
}
use ldb_backend_hack.Tables.{
  create_transaction, create_reconciliation_log, create_processed, save_customer,
}
use ldb_backend_hack.Reconciliation.Books.{Processes, process_payment_lem}
use ldb_backend_hack.Reconciliation.Recorded.{IsAnswered, process_payment-IsAnswered}
use ldb_backend_hack.Webhooks.Simulated.{read_payment-build_nomba_payload}
use ldb_backend_hack.Ledger.{Unchanged, IsBalanced, credited}
use ldb_backend_hack.Webhooks.{
  build_nomba_payload, already_processed, reconciled, receive, receive_request, receive_event,
  receive_payment, receipt_of, either_key, is_processed, is_text, mark_processed,
}
use ldb_backend_hack.Webhooks.Effects.{NamesRequest}
use ldb_backend_hack.Webhooks.Once.{receive_once}
use ldb_backend_hack.Webhooks.Again.{receive_again}
use ldb_backend_hack.Webhooks.Balance.{receive-IsBalanced}
use ldb_backend_hack.System.{here, after, nightly}
use ldb_backend_hack.Nomba.{http_error}
use ldb_backend_hack.Nightly.{run_nightly_reconciliation}
use ldb_backend_hack.Tests.{sample_runtime, sample_world, sample_payload}

sample_NamesRequest : NamesRequest sample_runtime sample_payload "R-1"
unfolding truthy or_json py_str lookup string_eq
sample_NamesRequest = (refl, refl)

sample_IsBalanced : IsBalanced sample_world
unfolding credited
sample_IsBalanced = record { keyed = (refl, tt); balanced = (refl, tt) }

sample_amount :
    (request_id : String) (p : Payment)
    → (read_payment sample_runtime request_id sample_payload sample_world).0 ≡ ok p
    → p.amount ≡ pos 2500
unfolding read_payment ◌>>=◌ get_default lookup string_eq decimal_of account_number_of
    reference_or_new truthy py_str nullable_text
sample_amount request_id p h = ap (λ (x : Payment). x.amount) (sym (ok_injective h))

process_payment_lem_example :
    Processes sample_runtime "R-1" sample_payload sample_world
      (process_payment memory sample_runtime "R-1" "payment_success" sample_payload sample_world).1
process_payment_lem_example =
    process_payment_lem memory memory-IsLawful sample_runtime "R-1" "payment_success" sample_payload
      sample_world

receive-IsBalanced_example :
    IsBalanced (receive memory sample_runtime sample_payload sample_world).1
receive-IsBalanced_example =
    receive-IsBalanced memory memory-IsLawful sample_runtime sample_payload sample_world
      (λ request_id p h. subst (λ d. pos 0 ≤ℤ d) (sym (sample_amount request_id p h)) (omega arith))
      sample_IsBalanced

receive_once_example :
    let w' = (receive memory sample_runtime sample_payload sample_world).1 in
    Unchanged sample_world w' ⊎ Unchanged w' (receive memory sample_runtime sample_payload w').1
receive_once_example =
    receive_once memory memory-IsLawful sample_runtime sample_payload sample_payload "R-1"
      sample_world sample_NamesRequest sample_NamesRequest

-- The result of the delivery on the sample.
abbrev sample_outcome : Outcome
sample_outcome = record {
  transaction_id = 2 ^ 127;
  status = partial;
  wallet_balance = some (pos 2500);
  quarantined = false;
}

sample_answer :
    (receive memory sample_runtime sample_payload sample_world).0 ≡ ok (reconciled sample_outcome)
unfolding receive receive_request receive_event receive_payment either_key is_processed is_text
    mark_processed receipt_of process_payment route_payment credit_payment credit_wallet
    finish_credit find_account after_number find_by_ref get_by_number fetch_customer read_payment
    reference_or_new account_number_of decimal_of nullable_text py_str get_default truthy or_json
    lookup string_eq nat_eq account_status_eq transaction_status_eq derive_transaction_status
    decision_for_status emit_payment_received deliver_payment deliver_all deliver registrations_of
    subscribed payment_payload delivery_to target_text outstanding_balance create_transaction
    create_reconciliation_log create_processed save_customer uuid4 clock ◌>>=◌ pure raise lift ask
    ◌+ℤ◌ ◌-ℤ◌ outstanding_of_funding remove_spaces
sample_answer = refl

-- The sample is delivered, and then the job runs, while Nomba is down.
abbrev after_sample : World
after_sample = (receive memory sample_runtime sample_payload sample_world).1

abbrev night_after : World
night_after = (run_nightly_reconciliation memory sample_runtime (http_error "down") after_sample).1

receive_again_example :
    receive memory sample_runtime sample_payload night_after ≡ (ok already_processed, night_after)
receive_again_example =
    receive_again memory memory-IsLawful sample_runtime "R-1" sample_payload sample_payload
      sample_world after_sample night_after (reconciled sample_outcome) sample_NamesRequest
      sample_NamesRequest (ap (λ r. (r, after_sample)) sample_answer)
      (after here (nightly (http_error "down")))

sample_process :
    (process_payment memory sample_runtime "R-1" "payment_success" sample_payload sample_world).0
    ≡ ok sample_outcome
unfolding process_payment route_payment credit_payment credit_wallet finish_credit find_account
    after_number find_by_ref get_by_number fetch_customer read_payment reference_or_new
    account_number_of decimal_of nullable_text py_str get_default truthy lookup string_eq nat_eq
    account_status_eq transaction_status_eq derive_transaction_status decision_for_status
    emit_payment_received deliver_payment deliver_all deliver registrations_of subscribed
    payment_payload delivery_to target_text outstanding_balance create_transaction
    create_reconciliation_log save_customer uuid4 clock ◌>>=◌ pure lift ask ◌+ℤ◌ ◌-ℤ◌
    outstanding_of_funding remove_spaces
sample_process = refl

process_payment-IsAnswered_example :
    IsAnswered sample_runtime "R-1" sample_payload sample_outcome
      (process_payment memory sample_runtime "R-1" "payment_success" sample_payload sample_world).1
process_payment-IsAnswered_example =
    process_payment-IsAnswered memory memory-IsLawful sample_runtime "R-1" "payment_success"
      sample_payload sample_world
      (process_payment memory sample_runtime "R-1" "payment_success" sample_payload sample_world).1
      sample_outcome
      (ap
        (λ r. (
          r,
          (process_payment memory sample_runtime "R-1" "payment_success" sample_payload
              sample_world).1,
        ))
        sample_process)

read_payment-build_nomba_payload_example :
    read_payment sample_runtime "R-9"
      (build_nomba_payload sample_runtime "R-9" "90 01" "C-1" (pos 700) "Ada" "GTBank")
      sample_world
    ≡ (
      ok (record {
        request_id = "R-9";
        amount = pos 700;
        fee = pos 0;
        alias_account_number = "9001";
        alias_account_reference = text "C-1";
        nomba_transaction_id = some "SIM-R-9";
        merchant_tx_ref = "R-9";
        sender_name = some "Ada";
        sender_bank = some "GTBank";
        narration = some "Simulated transfer";
        raw_payload =
            build_nomba_payload sample_runtime "R-9" "90 01" "C-1" (pos 700) "Ada" "GTBank";
      }),
      sample_world,
    )
unfolding remove_spaces string_eq
read_payment-build_nomba_payload_example =
    read_payment-build_nomba_payload sample_runtime "R-9" "90 01" "C-1" "Ada" "GTBank" (pos 700)
      sample_world refl
