-- ===== src/Ledger/Balance.antt =====
-- The wallets against the sums of their credited transactions, for each way to book a payment.
use mathlib.Core.Bool.{false≢true}
use ldb_backend_hack.Base.{
  pos, ◌+ℤ◌, ◌≤ℤ◌, +ℤ_zero, int_laws, ◌≡◌, refl, sym, ap, ap₂, ◌∙◌, subst, ◌==◌, nat_eq, false,
  Option, none, some, List, [], ◌∷◌, ◌++◌, any, replace, All, Elem, All-Elem, Elem-any, arith,
  if◌then◌else◌, Bool-cases, inl, inr, ==_refl, ==_comm,
}
use ldb_backend_hack.Model.{
  World, Customer, DedicatedAccount, Transaction, Decimal, Uuid, misdirected, transaction_status_eq,
}
use ldb_backend_hack.Reconciliation.{Payment}
use ldb_backend_hack.Helpers.{derive_transaction_status}
use ldb_backend_hack.Ledger.{
  Unchanged, Credits, Parks, Books, unchanged, credits, parks, owns, credit_of, credited, IsKeyed,
  IsBalancedFor, IsBalanced,
}

-- One more transaction counts for what it counts for.
pub credited-append :
    (accounts : List DedicatedAccount) (ts : List Transaction) (t : Transaction) (id : Uuid)
    → credited accounts (ts ++ t ∷ []) id ≡ credited accounts ts id +ℤ credit_of accounts id t
unfolding credited
credited-append accounts [] t id = omega int_laws
credited-append accounts (u ∷ ts) t id = rw (credited-append accounts ts t id) (omega int_laws)

-- An id that is not listed belongs to nobody.
owns_of_absent :
    (accounts : List DedicatedAccount) (account_id id : Uuid)
    → any (λ a. a.id == account_id) accounts ≡ false
    → owns accounts id (some account_id) ≡ false
owns_of_absent [] account_id id h = refl
owns_of_absent (a ∷ rest) account_id id h = ground (arith, owns_of_absent rest account_id id)

-- An account that is listed belongs to the customer that it names, and to no other.
pub owns-eq :
    (accounts : List DedicatedAccount) (a : DedicatedAccount) (id : Uuid)
    → IsKeyed accounts
    → Elem a accounts
    → owns accounts id (some a.id) ≡ (a.customer_id == id)
owns-eq [] a id k m = elim m [ ]
owns-eq (b ∷ rest) a id k (inl same) =
    subst (λ x. owns (b ∷ rest) id (some x.id) ≡ (x.customer_id == id)) (sym same)
      (ground (arith, owns_of_absent rest b.id id, ==_refl b.id))
owns-eq (b ∷ rest) a id k (inr later) = elim (Bool-cases (a.id == b.id)) [
  | inl clash ↦ absurd (false≢true (sym k.0 ∙ Elem-any (λ c. c.id == b.id) rest later clash))
  | inr apart ↦ ground (arith, owns-eq rest a id k.1 later)
]

-- A misdirected transaction counts for nobody.
pub credit_of_misdirected :
    (accounts : List DedicatedAccount) (id : Uuid) (t : Transaction)
    → t.status ≡ misdirected
    → credit_of accounts id t ≡ pos 0
unfolding credit_of
credit_of_misdirected accounts id t h = rw h (rw (==_refl misdirected) refl)

-- A payment of a negative amount aside, what is credited is the amount.
credit_of_derived :
    (received : Decimal) (target : Option Decimal)
    → pos 0 ≤ℤ received
    → (if derive_transaction_status received target == misdirected then pos 0 else received)
      ≡ received
unfolding derive_transaction_status transaction_status_eq
credit_of_derived received none h = refl
credit_of_derived received (some target) h = ground arith

credit_of_entry :
    (accounts : List DedicatedAccount) (id owner account_id : Uuid) (t : Transaction)
    (received : Decimal) (target : Option Decimal)
    → pos 0 ≤ℤ received
    → t.status ≡ derive_transaction_status received target
    → t.dedicated_account_id ≡ some account_id
    → t.amount ≡ received
    → owns accounts id (some account_id) ≡ (owner == id)
    → credit_of accounts id t ≡ (if owner == id then received else pos 0)
unfolding credit_of
credit_of_entry accounts id owner account_id t received target nonneg status booked amount owned =
    rw (booked, owned, amount, status)
      (elim (Bool-cases (owner == id)) [
        | inl mine ↦ rw mine (credit_of_derived received target nonneg)
        | inr other ↦ rw other (ground arith)
      ])

-- The balance equation of one row, after a transaction that counts nothing for it.
pub balanced_append_zero :
    (accounts : List DedicatedAccount) (ts : List Transaction) (t : Transaction)
    (rows : List Customer)
    → ((c : Customer) → Elem c rows → credit_of accounts c.id t ≡ pos 0)
    → All (IsBalancedFor accounts ts) rows
    → All (IsBalancedFor accounts (ts ++ t ∷ [])) rows
balanced_append_zero accounts ts t [] zero h = tt
balanced_append_zero accounts ts t (c ∷ rows) zero h = (
  h.0
      ∙ sym (
          credited-append accounts ts t c.id
          ∙ ap (λ d. credited accounts ts c.id +ℤ d) (zero c (inl refl))
          ∙ +ℤ_zero _),
  balanced_append_zero accounts ts t rows (λ d m. zero d (inr m)) h.1,
)

-- The customers after the row of `paid` was saved, if the transaction counts for it alone.
balanced_append_replace :
    (accounts : List DedicatedAccount) (ts : List Transaction) (t : Transaction) (paid : Customer)
    (rows : List Customer)
    → paid.wallet_balance ≡ credited accounts ts paid.id +ℤ credit_of accounts paid.id t
    → ((c : Customer) → (c.id == paid.id) ≡ false → credit_of accounts c.id t ≡ pos 0)
    → All (IsBalancedFor accounts ts) rows
    → All (IsBalancedFor accounts (ts ++ t ∷ [])) (replace (λ c. c.id == paid.id) paid rows)
balanced_append_replace accounts ts t paid [] e others h = tt
balanced_append_replace accounts ts t paid (c ∷ rows) e others h = (
  elim (Bool-cases (c.id == paid.id)) [
    | inl same ↦ rw same (e ∙ sym (credited-append accounts ts t paid.id))
    | inr apart ↦ rw apart (
        h.0
        ∙ sym (
            credited-append accounts ts t c.id
            ∙ ap (λ d. credited accounts ts c.id +ℤ d) (others c apart)
            ∙ +ℤ_zero _))
  ],
  balanced_append_replace accounts ts t paid rows e others h.1,
)

module _ (w w' : World) where
  pub Unchanged-IsBalanced : Unchanged w w' → IsBalanced w → IsBalanced w'
  Unchanged-IsBalanced c h = record {
    keyed = subst IsKeyed (sym c.accounts) h.keyed;
    balanced = rw (c.accounts, c.transactions, c.customers) h.balanced;
  }

module _ (p : Payment) (w w' : World) (nonneg : pos 0 ≤ℤ p.amount) where
  -- What the entry of a credit counts for each customer.
  Credits-credit_of :
      (c : Credits p w w') (id : Uuid)
      → IsKeyed w.accounts
      → credit_of w.accounts id c.entry ≡ (if c.customer.id == id then p.amount else pos 0)
  Credits-credit_of c id k =
      credit_of_entry w.accounts id c.customer.id c.account.id c.entry p.amount
        c.customer.target_amount nonneg c.status c.booked_to c.amount
        (owns-eq w.accounts c.account id k c.account_known ∙ ap (λ o. o == id) (sym c.owner))

  Credits-IsBalanced : Credits p w w' → IsBalanced w → IsBalanced w'
  Credits-IsBalanced c h = record {
    keyed = subst IsKeyed (sym c.accounts) h.keyed;
    balanced =
        rw (c.accounts, c.transactions, c.customers)
          (balanced_append_replace w.accounts w.transactions c.entry
            (record c.customer {
              wallet_balance = c.customer.wallet_balance +ℤ p.amount;
              updated_at = c.time;
            })
            w.customers
            (ap₂ (λ a b. a +ℤ b)
              (All-Elem (IsBalancedFor w.accounts w.transactions) w.customers h.balanced
                c.customer_known)
              (sym (
                Credits-credit_of c c.customer.id h.keyed
                ∙ ap (λ b. if b then p.amount else pos 0) (==_refl c.customer.id))))
            (λ d apart.
              Credits-credit_of c d.id h.keyed
              ∙ ap (λ b. if b then p.amount else pos 0) (==_comm c.customer.id d.id ∙ apart))
            h.balanced);
  }

  Parks-IsBalanced : Parks p w w' → IsBalanced w → IsBalanced w'
  Parks-IsBalanced c h = record {
    keyed = subst IsKeyed (sym c.accounts) h.keyed;
    balanced =
        rw (c.accounts, c.transactions, c.customers)
          (balanced_append_zero w.accounts w.transactions c.entry w.customers
            (λ d m. credit_of_misdirected w.accounts d.id c.entry c.status) h.balanced);
  }

  -- Whatever processing a payment of no negative amount does, the wallets stay balanced.
  pub Books-IsBalanced : Books p w w' → IsBalanced w → IsBalanced w'
  Books-IsBalanced (unchanged c) = Unchanged-IsBalanced w w' c
  Books-IsBalanced (credits c) = Credits-IsBalanced c
  Books-IsBalanced (parks c) = Parks-IsBalanced c
