-- ===== src/Webhooks/Marks.antt =====
-- The processed events, which no delivery of a webhook forgets.
use ldb_backend_hack.Base.{
  ◌≡◌, refl, subst, sym, ◌∙◌, ◌==◌, nat_eq, string_eq, String, Bool, true, false, [], ◌∷◌, any,
  any-append, inl, inr, Bool-cases, arith, if◌then◌else◌,
}
use ldb_backend_hack.Model.{
  World, Customer, DedicatedAccount, Transaction, SuspenseLog, ReconciliationLog,
  WebhookRegistration, ProcessedWebhookEvent, account_status_eq, processed_conflict,
}
use ldb_backend_hack.Action.{Exception, Result, ok, raised, Action, pure, raise, lift, ask, ◌>>=◌}
use ldb_backend_hack.Action.Reads.{Reads}
use ldb_backend_hack.Orm.Memory.{memory}
use ldb_backend_hack.Runtime.{Runtime, uuid4, clock}
use ldb_backend_hack.Tables.{
  create_transaction, create_suspense_log, create_reconciliation_log, create_processed,
  save_customer, create_customer, create_account, create_registration, save_account,
  delete_customer,
}
use ldb_backend_hack.Tables.Memory.{create_processed_new, create_processed_taken}
use ldb_backend_hack.Forwarder.{deliver}

-- The request is among the processed events.
abbrev pub IsMarked : String → World → Type 0
IsMarked request_id w = any (λ e. e.request_id == request_id) w.processed_events ≡ true

-- A marked request stays marked, whether the action returns or raises.
pub record KeepsMark (request_id : String) {A : Type 0} (m : Action A) : Type 0 where
  pub at : (w : World) → IsMarked request_id w → IsMarked request_id (m w).1

module _ {request_id : String} {A : Type 0} where
  pub KeepsMark-pure : (a : A) → KeepsMark request_id (pure a)
  unfolding pure
  KeepsMark-pure a = record { at = λ w h. h }

  pub KeepsMark-raise : (e : Exception) → KeepsMark request_id (raise {A = A} e)
  unfolding raise
  KeepsMark-raise e = record { at = λ w h. h }

  pub KeepsMark-lift : (r : Result A) → KeepsMark request_id (lift r)
  unfolding lift
  KeepsMark-lift r = record { at = λ w h. h }

  pub KeepsMark-ask : (q : World → Result A) → KeepsMark request_id (ask q)
  unfolding ask
  KeepsMark-ask q = record { at = λ w h. h }

  pub KeepsMark-if :
      (b : Bool) (m n : Action A)
      → KeepsMark request_id m
      → KeepsMark request_id n
      → KeepsMark request_id (if b then m else n)
  KeepsMark-if true m n km kn = km
  KeepsMark-if false m n km kn = kn

  pub KeepsMark-Reads : {Q : A → Type 0} {m : Action A} → Reads Q m → KeepsMark request_id m
  KeepsMark-Reads {m} r = record { at = λ w h. subst (IsMarked request_id) (sym (r.at w).0) h }

  -- An action that leaves the table of processed events alone.
  pub KeepsMark-same :
      (m : Action A)
      → ((w : World) → (m w).1.processed_events ≡ w.processed_events)
      → KeepsMark request_id m
  KeepsMark-same m k = record { at = λ w h. rw (k w) h }

module _ {request_id : String} {A B : Type 0} where
  continue_keeps :
      (r : Result A) (f : A → Action B) (w : World)
      → ((a : A) → KeepsMark request_id (f a))
      → IsMarked request_id w
      → IsMarked request_id ((lift r >>= f) w).1
  unfolding ◌>>=◌
  continue_keeps (ok a) f w kf h = (kf a).at w h
  continue_keeps (raised e) f w kf h = h

  pub KeepsMark-bind :
      (m : Action A) (f : A → Action B)
      → KeepsMark request_id m
      → ((a : A) → KeepsMark request_id (f a))
      → KeepsMark request_id (m >>= f)
  unfolding ◌>>=◌
  KeepsMark-bind m f km kf = record { at = λ w h. continue_keeps (m w).0 f (m w).1 kf (km.at w h) }

module _ (request_id : String) where
  pub uuid4-KeepsMark : (rt : Runtime) → KeepsMark request_id (uuid4 rt)
  unfolding uuid4
  uuid4-KeepsMark rt = record { at = λ w h. h }

  pub clock-KeepsMark : (rt : Runtime) → KeepsMark request_id (clock rt)
  unfolding clock
  clock-KeepsMark rt = record { at = λ w h. h }

  pub create_transaction-KeepsMark :
      (t : Transaction) → KeepsMark request_id (create_transaction memory t)
  unfolding create_transaction
  create_transaction-KeepsMark t = KeepsMark-same _ (λ w. ground arith)

  pub create_suspense_log-KeepsMark :
      (l : SuspenseLog) → KeepsMark request_id (create_suspense_log memory l)
  unfolding create_suspense_log
  create_suspense_log-KeepsMark l = KeepsMark-same _ (λ w. ground arith)

  pub create_reconciliation_log-KeepsMark :
      (l : ReconciliationLog) → KeepsMark request_id (create_reconciliation_log memory l)
  unfolding create_reconciliation_log
  create_reconciliation_log-KeepsMark l = KeepsMark-same _ (λ w. ground arith)

  pub save_customer-KeepsMark : (c : Customer) → KeepsMark request_id (save_customer memory c)
  unfolding save_customer
  save_customer-KeepsMark c = KeepsMark-same _ (λ w. refl)

  pub create_customer-KeepsMark : (c : Customer) → KeepsMark request_id (create_customer memory c)
  unfolding create_customer
  create_customer-KeepsMark c = KeepsMark-same _ (λ w. ground arith)

  pub create_account-KeepsMark :
      (a : DedicatedAccount) → KeepsMark request_id (create_account memory a)
  unfolding create_account
  create_account-KeepsMark a = KeepsMark-same _ (λ w. ground arith)

  pub create_registration-KeepsMark :
      (r : WebhookRegistration) → KeepsMark request_id (create_registration memory r)
  unfolding create_registration
  create_registration-KeepsMark r = KeepsMark-same _ (λ w. ground arith)

  pub save_account-KeepsMark : (a : DedicatedAccount) → KeepsMark request_id (save_account memory a)
  unfolding save_account
  save_account-KeepsMark a = KeepsMark-same _ (λ w. refl)

  pub delete_customer-KeepsMark : (c : Customer) → KeepsMark request_id (delete_customer memory c)
  unfolding delete_customer
  delete_customer-KeepsMark c = KeepsMark-same _ (λ w. refl)

  pub deliver-KeepsMark :
      (rt : Runtime) (body : String) (r : WebhookRegistration)
      → KeepsMark request_id (deliver rt body r)
  unfolding deliver
  deliver-KeepsMark rt body r = KeepsMark-same _ (λ w. ground arith)

  pub create_processed-KeepsMark :
      (e : ProcessedWebhookEvent) → KeepsMark request_id (create_processed memory e)
  create_processed-KeepsMark e = record {
    at = λ w h. elim (Bool-cases (any (processed_conflict e) w.processed_events)) [
      | inl taken ↦ rw (create_processed_taken e w taken) h
      | inr new ↦
          rw (create_processed_new e w new) (any-append _ w.processed_events (e ∷ []) ∙ rw h refl)
    ];
  }

pub ruleset marks_rules = (
  KeepsMark-pure, KeepsMark-raise, KeepsMark-lift, KeepsMark-ask, KeepsMark-if, KeepsMark-bind,
  uuid4-KeepsMark, clock-KeepsMark, create_transaction-KeepsMark, create_suspense_log-KeepsMark,
  create_reconciliation_log-KeepsMark, save_customer-KeepsMark, deliver-KeepsMark,
  create_processed-KeepsMark, create_customer-KeepsMark, create_account-KeepsMark,
  create_registration-KeepsMark, save_account-KeepsMark, delete_customer-KeepsMark,
)
