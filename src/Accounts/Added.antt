-- ===== src/Accounts/Added.antt =====
-- One account added, and its response.
use ldb_backend_hack.Base.{
  ◌≡◌, refl, sym, ap, subst, ◌∙◌, ◌==◌, nat_eq, string_eq, ==_refl, Bool, true, Bool-cases, inl,
  inr, Option-cases, List, [], ◌∷◌, ◌++◌, any, Elem, Elem-any, head?, head?-none, select,
}
use mathlib.Core.Bool.{true≢false}
use ldb_backend_hack.Model.{World, Customer, DedicatedAccount, Transaction, account_conflict}
use ldb_backend_hack.Action.{ok, ask}
use ldb_backend_hack.Action.Safe.{Safe, Ends, Safe-bind, Safe-pure}
use ldb_backend_hack.Orm.{required}
use ldb_backend_hack.Orm.Memory.{memory}
use ldb_backend_hack.Tables.{create_account}
use ldb_backend_hack.Tables.Memory.{create_account_new, create_account_taken}
use ldb_backend_hack.Responses.{build_account_response}
use ldb_backend_hack.Reconciliation.{fetch_customer}
use ldb_backend_hack.System.Rules.{On}

-- A foreign key to a row that is there is followed.
required_found :
    {Row : Type 0} (p : Row → Bool) (rows : List Row)
    → any p rows ≡ true
    → (r : Row) × (required (head? (select p rows)) ≡ ok r)
required_found p rows h = elim (Option-cases (head? (select p rows))) [
  | inl absent ↦ absurd (true≢false (sym h ∙ head?-none p rows absent))
  | inr (r, found) ↦ (r, ap required found)
]

module _ (w₀ : World) where
  -- The ledger as it was.
  abbrev pub Before : List Customer → List DedicatedAccount → List Transaction → Type 0
  Before cs rows ts = (cs ≡ w₀.customers) × (rows ≡ w₀.accounts) × (ts ≡ w₀.transactions)

  -- The ledger with the account.
  abbrev pub With :
      DedicatedAccount → List Customer → List DedicatedAccount → List Transaction → Type 0
  With a cs rows ts = (cs ≡ w₀.customers) × (rows ≡ w₀.accounts ++ a ∷ []) × (ts ≡ w₀.transactions)

  pub create_account-With :
      (a : DedicatedAccount)
      → Safe (On Before) (create_account memory a) (λ b w. (b ≡ a) × On (With a) w) (On Before)
  create_account-With a = record {
    at = λ w (cs, rows, ts). elim (Bool-cases (any (account_conflict a) w.accounts)) [
      | inl taken ↦ rw (create_account_taken a w taken) (cs, rows, ts)
      | inr free ↦ rw (create_account_new a w free) (refl, (cs, ap (λ xs. xs ++ a ∷ []) rows, ts))
    ];
  }

  -- The response is built without an exception, since the customer is there.
  pub build_account_response-With :
      (c : Customer) (a : DedicatedAccount)
      → Elem c w₀.customers
      → a.customer_id ≡ c.id
      → Safe
          (On (With a))
          (build_account_response memory a)
          (λ r w. (r.id ≡ a.id) × (r.account_number ≡ a.account_number) × On (With a) w)
          (On Before)
  unfolding build_account_response fetch_customer ask
  build_account_response-With c a known owner =
      Safe-bind {R = λ d. On (With a)} _ _
        (record {
          at = λ w h.
              let there : any (λ d. d.id == a.customer_id) w.customers ≡ true =
                subst (λ rows. any (λ d. d.id == a.customer_id) rows ≡ true) (sym h.0)
                  (Elem-any _ w₀.customers known (rw owner (==_refl c.id))) in
              let (d, found) = required_found (λ d. d.id == a.customer_id) w.customers there in
              subst (λ r. Ends (λ (_ : Customer). On (With a)) (On Before) (r, w)) (sym found) h;
        })
        (λ d. Safe-pure _ (λ w h. (refl, refl, h)))
