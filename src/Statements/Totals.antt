-- ===== src/Statements/Totals.antt =====
-- The total of a statement against the wallet of its customer.
use ldb_backend_hack.Base.{
  ℤ, pos, ◌+ℤ◌, int_laws, ◌≡◌, refl, sym, ap, ap₂, ◌∙◌, subst, ◌==◌, nat_eq, ==_refl, ==→eq, Bool,
  true, not, some, List, [], ◌∷◌, select, any, Elem, Elem-any, All-Elem, if◌then◌else◌, inl, inr,
  Bool-cases, Option-cases, arith,
}
use mathlib.Core.Bool.{false≢true}
use mathlib.Core.Logic.{∥∥₁_elim}
use mathlib.Core.List.{Perm, Permᴰ}
use ldb_backend_hack.Model.{
  World, Customer, DedicatedAccount, Transaction, Uuid, misdirected, transaction_status_eq,
}
use ldb_backend_hack.Action.{ok}
use ldb_backend_hack.Action.Steps.{bind-eq-ok, ask_ok, ok_injective}
use ldb_backend_hack.Orm.{Orm, IsLawful}
use ldb_backend_hack.Orm.Memory.{memory, lawful-eq-memory}
use ldb_backend_hack.Ledger.{owns, credit_of, credited, IsBalancedFor, IsBalanced}
use ldb_backend_hack.Statements.Owned.{IsOwned, owned_account_lem}
use ldb_backend_hack.Statements.{
  Statement, total_received_of, booked_to, owned_account, account_transactions, get_statement,
}

ℤ_set : IsSet ℤ
ℤ_set = hlevel

-- The order of the transactions does not matter to their total.
total_received_of-Permᴰ :
    {xs ys : List Transaction} → Permᴰ xs ys → total_received_of xs ≡ total_received_of ys
unfolding total_received_of
total_received_of-Permᴰ Permᴰ.nil = refl
total_received_of-Permᴰ (Permᴰ.cons e p) =
    ap₂ (λ a t. (if not (a.status == misdirected) then a.amount else pos 0) +ℤ t) e
      (total_received_of-Permᴰ p)
total_received_of-Permᴰ (Permᴰ.swap {a} {b} {l = l} e e') = rw (← e, ← e') (omega int_laws)
total_received_of-Permᴰ (Permᴰ.trans p q) = total_received_of-Permᴰ p ∙ total_received_of-Permᴰ q

total_received_of-Perm :
    {xs ys : List Transaction} → Perm xs ys → total_received_of xs ≡ total_received_of ys
total_received_of-Perm p = ∥∥₁_elim p (ℤ_set _ _) total_received_of-Permᴰ

-- The customer has no account but this one.
abbrev pub IsSole : List DedicatedAccount → DedicatedAccount → Type 0
IsSole accounts account =
    (b : DedicatedAccount) → Elem b accounts → b.customer_id ≡ account.customer_id → b ≡ account

any-Elem :
    (p : DedicatedAccount → Bool) (accounts : List DedicatedAccount)
    → any p accounts ≡ true
    → (a : DedicatedAccount) × Elem a accounts × (p a ≡ true)
any-Elem p [] h = absurd (false≢true h)
any-Elem p (a ∷ rest) h = elim (Bool-cases (p a)) [
  | inl pass ↦ (a, inl refl, pass)
  | inr fail ↦ let (b, m, pass) = any-Elem p rest (rw fail at h) in (b, inr m, pass)
]

owns-sole :
    (accounts : List DedicatedAccount) (account : DedicatedAccount) (id : Uuid)
    → Elem account accounts
    → IsSole accounts account
    → owns accounts account.customer_id (some id) ≡ (id == account.id)
owns-sole accounts account id known sole =
    elim (Bool-cases (owns accounts account.customer_id (some id))) [
      | inl owned ↦
          let (b, m, pass) = any-Elem _ accounts owned in
          let same : b ≡ account = sole b m (==→eq _ _ (ground arith)) in
          let named : id ≡ account.id =
            sym (==→eq b.id id (ground arith)) ∙ ap (λ (x : DedicatedAccount). x.id) same in
          owned ∙ sym (subst (λ x. (x == account.id) ≡ true) (sym named) (==_refl account.id))
      | inr other ↦ elim (Bool-cases (id == account.id)) [
        | inr apart ↦ other ∙ sym apart
        | inl named ↦ absurd (
            false≢true (
              sym other
              ∙ Elem-any _ accounts known (
                  rw (==→eq id account.id named, ==_refl account.id, ==_refl account.customer_id)
                    refl)))
      ]
    ]

zero_add : (a : ℤ) → pos 0 +ℤ a ≡ a
zero_add a = omega int_laws

-- What counts for the customer is what was booked to the account.
credited-eq-total :
    (accounts : List DedicatedAccount) (account_id customer_id : Uuid) (ts : List Transaction)
    → ((id : Uuid) → owns accounts customer_id (some id) ≡ (id == account_id))
    → credited accounts ts customer_id ≡ total_received_of (select (booked_to account_id) ts)
unfolding credited credit_of total_received_of
credited-eq-total accounts account_id customer_id [] h = refl
credited-eq-total accounts account_id customer_id (t ∷ ts) h =
    let rest = credited-eq-total accounts account_id customer_id ts h in
    elim (Option-cases t.dedicated_account_id) [
      | inl unbooked ↦ rw unbooked (elim (Bool-cases (t.status == misdirected)) [
        | inl stray ↦ rw stray (zero_add _ ∙ rest)
        | inr counted ↦ rw counted (zero_add _ ∙ rest)
      ])
      | inr (id, booked) ↦ rw booked (
          rw (h id) (elim (Bool-cases (id == account_id)) [
            | inl mine ↦ rw mine (elim (Bool-cases (t.status == misdirected)) [
              | inl stray ↦ rw stray (ap (λ d. pos 0 +ℤ d) rest)
              | inr counted ↦ rw counted (ap (λ d. t.amount +ℤ d) rest)
            ])
            | inr other ↦ rw other (elim (Bool-cases (t.status == misdirected)) [
              | inl stray ↦ rw stray (zero_add _ ∙ rest)
              | inr counted ↦ rw counted (zero_add _ ∙ rest)
            ])
          ]))
    ]

total-eq-wallet :
    (newest_first : List Transaction → List Transaction)
    (sorts : (ts : List Transaction) → Perm (newest_first ts) ts) (merchant_id : Uuid) (w : World)
    (a : DedicatedAccount) (c : Customer)
    → Elem a w.accounts
    → IsOwned w merchant_id a c
    → IsSole w.accounts a
    → IsBalanced w
    → total_received_of (account_transactions memory newest_first a.id w) ≡ c.wallet_balance
unfolding account_transactions
total-eq-wallet newest_first sorts merchant_id w a c known (payer, owner, mine) sole balanced =
    total_received_of-Perm (sorts _)
    ∙ sym (
        credited-eq-total w.accounts a.id a.customer_id w.transactions
          (λ id. owns-sole w.accounts a id known sole))
    ∙ ap (credited w.accounts w.transactions) (sym owner)
    ∙ sym (All-Elem (IsBalancedFor w.accounts w.transactions) w.customers balanced.balanced payer)

get_statement-memory :
    (newest_first : List Transaction → List Transaction)
    (sorts : (ts : List Transaction) → Perm (newest_first ts) ts) (account_id merchant_id : Uuid)
    (w w' : World) (s : Statement)
    → get_statement memory newest_first account_id merchant_id w ≡ (ok s, w')
    → IsBalanced w
    → ((a : DedicatedAccount) → Elem a w.accounts → a.id ≡ account_id → IsSole w.accounts a)
    → s.total_received ≡ s.wallet_balance
unfolding get_statement
get_statement-memory newest_first sorts account_id merchant_id w w' s h balanced sole =
    let (pair, v, e, e') = bind-eq-ok (owned_account memory account_id merchant_id) _ h in
    let (same, known, named, owned) = owned_account_lem merchant_id w account_id e in
    let (still, made) = ask_ok _ v w' e' in
    let whole = ok_injective made in
    sym (ap (λ (x : Statement). x.total_received) whole)
    ∙ ap (λ u. total_received_of (account_transactions memory newest_first pair.0.id u)) same
    ∙ total-eq-wallet newest_first sorts merchant_id w pair.0 pair.1 known owned
        (sole pair.0 known named) balanced
    ∙ ap (λ (x : Statement). x.wallet_balance) whole

-- Over any lawful ORM, where every wallet holds the sum of its credited transactions and the
-- customer has only the one account, the total received on a statement is the wallet balance on it,
-- in whatever order the transactions come.
pub get_statement-total :
    (orm : Orm) (laws : IsLawful orm) (newest_first : List Transaction → List Transaction)
    (sorts : (ts : List Transaction) → Perm (newest_first ts) ts) (account_id merchant_id : Uuid)
    (w w' : World) (s : Statement)
    → get_statement orm newest_first account_id merchant_id w ≡ (ok s, w')
    → IsBalanced w
    → ((a : DedicatedAccount) → Elem a w.accounts → a.id ≡ account_id → IsSole w.accounts a)
    → s.total_received ≡ s.wallet_balance
get_statement-total orm laws newest_first sorts account_id merchant_id w w' s h =
    get_statement-memory newest_first sorts account_id merchant_id w w' s
      (rw (lawful-eq-memory orm laws) at h)
