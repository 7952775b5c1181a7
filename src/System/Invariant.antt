-- ===== src/System/Invariant.antt =====
-- What holds in every state that the backend can get to.
use ldb_backend_hack.Base.{
  pos, ◌≤ℤ◌, ◌≡◌, subst, Option, none, some, List, String, not, ◌==◌, string_eq,
}
use ldb_backend_hack.Model.{World, Transaction, Decimal, Uuid}
use ldb_backend_hack.Action.{Action, ok, pure, raise, value_error, ◌>>=◌}
use mathlib.Core.List.{Perm}
use ldb_backend_hack.Action.Safe.{Safe, Safe-bind, Safe-pure, Safe_after}
use ldb_backend_hack.Orm.{Orm, IsLawful}
use ldb_backend_hack.Orm.Memory.{memory, lawful-eq-memory}
use ldb_backend_hack.Runtime.{Runtime}
use ldb_backend_hack.Api.{
  Settings, Outside, Request, get_health, post_nomba, bearer, Route, customers, accounts, hooks,
  CustomerRoute, post_customers, get_customer, patch_customer, AccountRoute, post_dedicated,
  get_account, get_account_transactions, get_account_statement, post_register, post_simulate,
  get_merchant_from_bearer, default_merchant, customer_controller, account_controller,
  hook_controller, Reply, controller, serve, answer,
}
use ldb_backend_hack.Statements.{Statement, get_statement}
use ldb_backend_hack.Statements.Totals.{get_statement-total}
use ldb_backend_hack.Ledger.Sound.Accounts.{distinct_unique}
use ldb_backend_hack.Ledger.Keeps.{KeepsLedger, keeps_rules, KeepsLedger-if, KeepsLedger-raise}
use ldb_backend_hack.Ledger.Sound.{IsSound}
use ldb_backend_hack.Ledger.Sound.Payments.{Sound}
use ldb_backend_hack.System.{IsAccepted, Step, request, nightly, Reach, start, next}
use ldb_backend_hack.System.Rules.{Safe_of_keeps}
use ldb_backend_hack.System.Customers.{
  customer_create-Safe, customer_get-KeepsLedger, customer_update-Safe,
}
use ldb_backend_hack.System.Accounts.{
  create_dedicated-Safe, account_get-KeepsLedger, list_transactions-KeepsLedger,
  get_statement-KeepsLedger, register-KeepsLedger,
}
use ldb_backend_hack.System.Payments.{
  simulate-Safe, nomba_webhook-Safe, run_nightly_reconciliation-Safe,
}

default_merchant-KeepsLedger : (settings : Settings) → KeepsLedger (default_merchant settings)
unfolding default_merchant
default_merchant-KeepsLedger settings = go settings.default_merchant_id
  where
    go :
        (o : Option Uuid)
        → KeepsLedger {A = Uuid} (elim o [ none ↦ raise value_error | some id ↦ pure id ])
    go none = search keeps_rules
    go (some id) = search keeps_rules

get_merchant_from_bearer-KeepsLedger :
    (settings : Settings) (credentials : String)
    → KeepsLedger (get_merchant_from_bearer settings credentials)
unfolding get_merchant_from_bearer
get_merchant_from_bearer-KeepsLedger settings credentials =
    KeepsLedger-if (not (credentials == settings.ldb_api_key)) _ _ (KeepsLedger-raise _)
      (default_merchant-KeepsLedger settings)

module _ (rt : Runtime) (outside : Outside) (credentials : String) where
  -- The dependency changes nothing.
  with_merchant-Safe :
      (f : Uuid → Action Reply)
      → ((merchant : Uuid) → Safe Sound (f merchant) (λ _. Sound) Sound)
      → Safe Sound (get_merchant_from_bearer outside.settings credentials >>= f) (λ _. Sound) Sound
  with_merchant-Safe f k =
      Safe-bind _ _
        (Safe_of_keeps IsSound (get_merchant_from_bearer-KeepsLedger outside.settings credentials))
        k

  replies-Safe :
      {A : Type 0} (m : Action A) (reply : A → Reply)
      → Safe Sound m (λ _. Sound) Sound
      → Safe Sound (m >>= (λ r. pure (reply r))) (λ _. Sound) Sound
  replies-Safe m reply k = Safe-bind _ _ k (λ r. Safe-pure _ (λ w h. h))

  customer_controller-Safe :
      (route : CustomerRoute)
      → Safe Sound (customer_controller memory rt outside credentials route) (λ _. Sound) Sound
  unfolding customer_controller
  customer_controller-Safe (post_customers body) =
      with_merchant-Safe _ (λ m. replies-Safe _ _ (customer_create-Safe rt outside.nomba body m))
  customer_controller-Safe (get_customer id) = with_merchant-Safe _ (λ m.
      replies-Safe _ _
        (Safe_of_keeps IsSound (customer_get-KeepsLedger rt outside.parse_uuid id m)))
  customer_controller-Safe (patch_customer id body) = with_merchant-Safe _ (λ m.
      replies-Safe _ _ (customer_update-Safe rt outside.nomba_update outside.parse_uuid id body m))

  account_controller-Safe :
      (route : AccountRoute)
      → Safe Sound (account_controller memory rt outside credentials route) (λ _. Sound) Sound
  unfolding account_controller
  account_controller-Safe (post_dedicated body) =
      with_merchant-Safe _ (λ m. replies-Safe _ _ (create_dedicated-Safe rt outside.nomba body m))
  account_controller-Safe (get_account id) =
      with_merchant-Safe _
        (λ m. replies-Safe _ _ (Safe_of_keeps IsSound (account_get-KeepsLedger id m)))
  account_controller-Safe (get_account_transactions id filters) = with_merchant-Safe _ (λ m.
      replies-Safe _ _
        (Safe_of_keeps IsSound (list_transactions-KeepsLedger id m outside.newest_first filters)))
  account_controller-Safe (get_account_statement id) = with_merchant-Safe _ (λ m.
      replies-Safe _ _
        (Safe_of_keeps IsSound (get_statement-KeepsLedger id m outside.newest_first)))

module _ (rt : Runtime) (float_lem : (d : Decimal) → pos 0 ≤ℤ d → pos 0 ≤ℤ rt.float d)
    (outside : Outside) where
  controller-Safe :
      (credentials : String) (route : Route)
      → IsAccepted rt outside (bearer credentials route)
      → Safe Sound (controller memory rt outside credentials route) (λ _. Sound) Sound
  unfolding controller hook_controller
  controller-Safe credentials (customers route) h =
      customer_controller-Safe rt outside credentials route
  controller-Safe credentials (accounts route) h =
      account_controller-Safe rt outside credentials route
  controller-Safe credentials (hooks (post_register body)) h =
      with_merchant-Safe rt outside credentials _ (λ m.
        replies-Safe rt outside credentials _ _
          (Safe_of_keeps IsSound (register-KeepsLedger rt body m)))
  controller-Safe credentials (hooks (post_simulate body)) h =
      with_merchant-Safe rt outside credentials _
        (λ m. replies-Safe rt outside credentials _ _ (simulate-Safe rt float_lem body h))

  serve-Safe :
      (r : Request)
      → IsAccepted rt outside r
      → Safe Sound (serve memory rt outside r) (λ _. Sound) Sound
  unfolding serve
  serve-Safe get_health h = Safe-pure _ (λ w h. h)
  serve-Safe (post_nomba raw_body signature) h =
      Safe-bind _ _ (nomba_webhook-Safe rt outside.gate raw_body signature h)
        (λ r. Safe-pure _ (λ w h. h))
  serve-Safe (bearer credentials route) h = controller-Safe credentials route h

module _ (rt : Runtime) (float_lem : (d : Decimal) → pos 0 ≤ℤ d → pos 0 ≤ℤ rt.float d) where
  Step-Sound : {w w' : World} → Step memory rt w w' → Sound w → Sound w'
  unfolding answer
  Step-Sound {w} (request outside r accepted) h =
      Safe_after (serve-Safe rt float_lem outside r accepted) w h
  Step-Sound {w} (nightly nomba_list) h =
      Safe_after (run_nightly_reconciliation-Safe rt nomba_list) w h

  Reach-Sound-memory : {w : World} → Reach memory rt w → Sound w
  Reach-Sound-memory start = record {
    keyed = tt;
    single = tt;
    owned = tt;
    once = tt;
    booked = tt;
    balanced = tt;
  }
  Reach-Sound-memory (next r s) = Step-Sound s (Reach-Sound-memory r)

-- Over any lawful ORM, if `float` gives no negative number for an amount that is not negative, then
-- in every state that the requests and the nightly job can lead to from the empty tables, where
-- Nomba reports no negative amounts, account ids and the owners of accounts are distinct, every
-- account belongs to a customer and every booked transaction to an account, no request of Nomba is
-- entered twice, and each wallet holds exactly the sum of the transactions that were credited to
-- it.
pub Reach-Sound :
    (orm : Orm) (laws : IsLawful orm) (rt : Runtime)
    (float_lem : (d : Decimal) → pos 0 ≤ℤ d → pos 0 ≤ℤ rt.float d) (w : World)
    → Reach orm rt w
    → Sound w
Reach-Sound orm laws rt float_lem w r =
    Reach-Sound-memory rt float_lem (subst (λ o. Reach o rt w) (lawful-eq-memory orm laws) r)

-- Over any lawful ORM, with the same conditions, every statement that is shown in a state that the
-- backend can get to has the wallet balance as its total received.
pub get_statement-Reach :
    (orm : Orm) (laws : IsLawful orm) (rt : Runtime)
    (float_lem : (d : Decimal) → pos 0 ≤ℤ d → pos 0 ≤ℤ rt.float d)
    (newest_first : List Transaction → List Transaction)
    (sorts : (ts : List Transaction) → Perm (newest_first ts) ts) (account_id merchant_id : Uuid)
    (w w' : World) (s : Statement)
    → Reach orm rt w
    → get_statement orm newest_first account_id merchant_id w ≡ (ok s, w')
    → s.total_received ≡ s.wallet_balance
get_statement-Reach orm laws rt float_lem newest_first sorts account_id merchant_id w w' s r shown =
    let sound = Reach-Sound orm laws rt float_lem w r in
    get_statement-total orm laws newest_first sorts account_id merchant_id w w' s shown
      (record { keyed = sound.keyed; balanced = sound.balanced })
      (λ a known named b listed owner.
        distinct_unique (λ c. c.customer_id) w.accounts b a sound.single listed known owner)
