-- ===== src/Ledger/Sound/Customers.antt =====
-- Customers added, deleted and saved.
use ldb_backend_hack.Base.{
  pos, ◌+ℤ◌, ◌≡◌, refl, sym, ap, ◌∙◌, subst, ◌==◌, nat_eq, true, false, not, Option, none, some,
  List, [], ◌∷◌, ◌++◌, any, any-true_append, any_none, any-select, any-replace, select, replace,
  All, All-append, All-Elem, All-mono, All-select, All-replace, Elem, any_none-Elem, arith,
  Bool-cases, inl, inr, ==→eq,
}
use mathlib.Core.Bool.{true≢false}
use ldb_backend_hack.Model.{Customer, DedicatedAccount, Transaction, Uuid, transaction_status_eq}
use ldb_backend_hack.Ledger.{owns, credit_of, credited, IsBalancedFor}
use ldb_backend_hack.Ledger.Sound.{IsSound, IsOwned}

-- The customer has no account.
abbrev pub HasNone : List DedicatedAccount → Uuid → Type 0
HasNone accounts id = any (λ a. a.customer_id == id) accounts ≡ false

owns_of_none :
    (accounts : List DedicatedAccount) (id : Uuid) (o : Option Uuid)
    → HasNone accounts id
    → owns accounts id o ≡ false
owns_of_none accounts id none h = refl
owns_of_none accounts id (some x) h =
    any_none _ accounts (λ a m. let other = any_none-Elem _ accounts h m in ground arith)

credit_of_none :
    (accounts : List DedicatedAccount) (id : Uuid) (t : Transaction)
    → HasNone accounts id
    → credit_of accounts id t ≡ pos 0
unfolding credit_of
credit_of_none accounts id t h =
    rw (owns_of_none accounts id t.dedicated_account_id h) (ground arith)

-- Nothing is credited to a customer without an account.
credited_of_none :
    (accounts : List DedicatedAccount) (ts : List Transaction) (id : Uuid)
    → HasNone accounts id
    → credited accounts ts id ≡ pos 0
unfolding credited ◌+ℤ◌
credited_of_none accounts [] id h = refl
credited_of_none accounts (t ∷ ts) id h =
    rw (credit_of_none accounts id t h, credited_of_none accounts ts id h) refl

-- An id that no customer has is one that no account names.
pub new_HasNone :
    (customers : List Customer) (accounts : List DedicatedAccount) (id : Uuid)
    → any (λ c. c.id == id) customers ≡ false
    → All (IsOwned customers) accounts
    → HasNone accounts id
new_HasNone customers accounts id fresh owned = any_none _ accounts (λ a m.
    elim (Bool-cases (a.customer_id == id)) [
      | inr apart ↦ apart
      | inl same ↦ absurd (
          true≢false (
            sym (All-Elem (IsOwned customers) accounts owned m)
            ∙ ap (λ i. any (λ c. c.id == i) customers) (==→eq a.customer_id id same)
            ∙ fresh))
    ])

module _ {customers : List Customer} {accounts : List DedicatedAccount}
    {ts : List Transaction} where
  pub IsSound-of_new_customer :
      (c : Customer)
      → any (λ d. d.id == c.id) customers ≡ false
      → c.wallet_balance ≡ pos 0
      → IsSound customers accounts ts
      → IsSound (customers ++ c ∷ []) accounts ts
  IsSound-of_new_customer c fresh empty h = record {
    keyed = h.keyed;
    single = h.single;
    owned =
        All-mono (IsOwned customers) (IsOwned (customers ++ c ∷ [])) accounts
          (λ a m k. any-true_append _ customers (c ∷ []) k) h.owned;
    once = h.once;
    booked = h.booked;
    balanced = All-append (IsBalancedFor accounts ts) customers (c ∷ []) h.balanced (
      empty
          ∙ sym (
              credited_of_none accounts ts c.id
                (new_HasNone customers accounts c.id fresh h.owned)),
      tt,
    );
  }

  pub IsSound-of_deleted_customer :
      (c : Customer)
      → HasNone accounts c.id
      → IsSound customers accounts ts
      → IsSound (select (λ r. not (r.id == c.id)) customers) accounts ts
  IsSound-of_deleted_customer c without h = record {
    keyed = h.keyed;
    single = h.single;
    owned =
        All-mono (IsOwned customers) (IsOwned (select (λ r. not (r.id == c.id)) customers)) accounts
          (λ a m k.
            any-select _ _ customers (λ r named.
              let other = any_none-Elem _ accounts without m in
              let same = ==→eq r.id a.customer_id named in
              subst (λ i. not (i == c.id) ≡ true) (sym same) (rw other refl))
            ∙ k)
          h.owned;
    once = h.once;
    booked = h.booked;
    balanced = All-select (IsBalancedFor accounts ts) _ customers h.balanced;
  }

  -- A row saved anew with the id and the wallet of one in the table.
  pub IsSound-of_saved_customer :
      (found c : Customer)
      → Elem found customers
      → c.id ≡ found.id
      → c.wallet_balance ≡ found.wallet_balance
      → IsSound customers accounts ts
      → IsSound (replace (λ r. r.id == c.id) c customers) accounts ts
  IsSound-of_saved_customer found c known id wallet h = record {
    keyed = h.keyed;
    single = h.single;
    owned =
        All-mono (IsOwned customers) (IsOwned (replace (λ r. r.id == c.id) c customers)) accounts
          (λ a m k.
            any-replace _ _ c customers
              (λ r n same. ap (λ i. i == a.customer_id) (sym (==→eq r.id c.id same)))
            ∙ k)
          h.owned;
    once = h.once;
    booked = h.booked;
    balanced =
        All-replace (IsBalancedFor accounts ts) _ c customers
          (λ r n same k.
            wallet
            ∙ All-Elem (IsBalancedFor accounts ts) customers h.balanced known
            ∙ ap (credited accounts ts) (sym id))
          h.balanced;
  }
