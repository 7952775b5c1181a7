-- ===== src/Ledger/Sound/Accounts.antt =====
-- Accounts added and saved.
use ldb_backend_hack.Base.{
  ◌≡◌, refl, sym, ap, ◌∙◌, subst, ◌==◌, nat_eq, Bool, true, false, ◌&&◌, Option, none, some,
  Option-cases, List, [], ◌∷◌, ◌++◌, any, any-append, any-true_append, any_none-Elem, replace, All,
  All-append, All-mono, Elem, arith, Bool-cases, inl, inr, ==_refl, ==_comm, ==→eq,
}
use mathlib.Core.Bool.{true≢false}
use ldb_backend_hack.Model.{Customer, DedicatedAccount, Transaction, Uuid, transaction_status_eq}
use ldb_backend_hack.Ledger.{owns, credit_of, credited, AreDistinct, IsBalancedFor, IsKnown}
use ldb_backend_hack.Ledger.Sound.{IsSound, IsOwned, IsBooked}
use ldb_backend_hack.Ledger.Sound.Customers.{HasNone}

-- Two tables with the same ids and owners, row by row.
abbrev SameKeys : List DedicatedAccount → List DedicatedAccount → Type 0
SameKeys [] [] = Unit
SameKeys [] (b ∷ bs) = ⊥
SameKeys (a ∷ as₁) [] = ⊥
SameKeys (a ∷ as₁) (b ∷ bs) = (b.id ≡ a.id) × (b.customer_id ≡ a.customer_id) × SameKeys as₁ bs

any-SameKeys :
    (p : Uuid → Uuid → Bool) (xs ys : List DedicatedAccount)
    → SameKeys xs ys
    → any (λ a. p a.id a.customer_id) ys ≡ any (λ a. p a.id a.customer_id) xs
any-SameKeys p [] [] h = refl
any-SameKeys p [] (y ∷ ys) h = elim h [ ]
any-SameKeys p (x ∷ xs) [] h = elim h [ ]
any-SameKeys p (x ∷ xs) (y ∷ ys) (id, owner, h) = rw (id, owner, any-SameKeys p xs ys h) refl

AreDistinct-SameKeys :
    (pick : Uuid → Uuid → Uuid) (xs ys : List DedicatedAccount)
    → SameKeys xs ys
    → AreDistinct (λ a. pick a.id a.customer_id) xs
    → AreDistinct (λ a. pick a.id a.customer_id) ys
AreDistinct-SameKeys pick [] [] h k = tt
AreDistinct-SameKeys pick [] (y ∷ ys) h k = elim h [ ]
AreDistinct-SameKeys pick (x ∷ xs) [] h k = elim h [ ]
AreDistinct-SameKeys pick (x ∷ xs) (y ∷ ys) (id, owner, h) (k, ks) = (
  rw (id, owner) (any-SameKeys (λ i o. pick i o == pick x.id x.customer_id) xs ys h ∙ k),
  AreDistinct-SameKeys pick xs ys h ks,
)

IsOwned-SameKeys :
    (customers : List Customer) (xs ys : List DedicatedAccount)
    → SameKeys xs ys
    → All (IsOwned customers) xs
    → All (IsOwned customers) ys
IsOwned-SameKeys customers [] [] h k = tt
IsOwned-SameKeys customers [] (y ∷ ys) h k = elim h [ ]
IsOwned-SameKeys customers (x ∷ xs) [] h k = elim h [ ]
IsOwned-SameKeys customers (x ∷ xs) (y ∷ ys) (id, owner, h) (k, ks) =
    (rw owner k, IsOwned-SameKeys customers xs ys h ks)

credited-SameKeys :
    (xs ys : List DedicatedAccount) (ts : List Transaction) (id : Uuid)
    → SameKeys xs ys
    → credited ys ts id ≡ credited xs ts id
unfolding credited credit_of
credited-SameKeys xs ys [] id h = refl
credited-SameKeys xs ys (t ∷ ts) id h = elim (Option-cases t.dedicated_account_id) [
  | inl unbooked ↦ rw (unbooked, credited-SameKeys xs ys ts id h) refl
  | inr (x, booked) ↦
      rw (booked, any-SameKeys (λ i o. i == x && o == id) xs ys h, credited-SameKeys xs ys ts id h)
        refl
]

-- A row that is saved anew keeps its place, its id and its owner.
SameKeys-replace :
    (v : DedicatedAccount) (rows : List DedicatedAccount)
    → ((r : DedicatedAccount) → Elem r rows → r.id ≡ v.id → v.customer_id ≡ r.customer_id)
    → SameKeys rows (replace (λ r. r.id == v.id) v rows)
SameKeys-replace v [] h = tt
SameKeys-replace v (r ∷ rows) h =
    let rest = SameKeys-replace v rows (λ s m. h s (inr m)) in
    elim (Bool-cases (r.id == v.id)) [
      | inl hit ↦ let same = ==→eq r.id v.id hit in rw hit (sym same, h r (inl refl) same, rest)
      | inr miss ↦ rw miss (refl, refl, rest)
    ]

module _ (key : DedicatedAccount → Uuid) where
  apart_from :
      (x y : DedicatedAccount) (rows : List DedicatedAccount)
      → any (λ b. key b == key x) rows ≡ false
      → Elem y rows
      → key y ≡ key x
      → ⊥
  apart_from x y rows k m e =
      true≢false (
        sym (subst (λ i. (i == key x) ≡ true) (sym e) (==_refl (key x))) ∙ any_none-Elem _ rows k m)

  -- Two rows with one key are the same row.
  pub distinct_unique :
      (rows : List DedicatedAccount) (a b : DedicatedAccount)
      → AreDistinct key rows
      → Elem a rows
      → Elem b rows
      → key a ≡ key b
      → a ≡ b
  distinct_unique [] a b k m n e = elim m [ ]
  distinct_unique (x ∷ rows) a b (k, ks) (inl m) (inl n) e = m ∙ sym n
  distinct_unique (x ∷ rows) a b (k, ks) (inl m) (inr n) e =
      absurd (apart_from x b rows k n (sym e ∙ ap key m))
  distinct_unique (x ∷ rows) a b (k, ks) (inr m) (inl n) e =
      absurd (apart_from x a rows k m (e ∙ ap key n))
  distinct_unique (x ∷ rows) a b (k, ks) (inr m) (inr n) e = distinct_unique rows a b ks m n e

  AreDistinct-append :
      (a : DedicatedAccount) (rows : List DedicatedAccount)
      → any (λ b. key b == key a) rows ≡ false
      → AreDistinct key rows
      → AreDistinct key (rows ++ a ∷ [])
  AreDistinct-append a [] h k = (refl, tt)
  AreDistinct-append a (r ∷ rows) h (k, ks) = (
    any-append _ rows (a ∷ []) ∙ rw k (ground (arith, ==_comm (key a) (key r))),
    AreDistinct-append a rows (ground arith) ks,
  )

-- A new account changes nothing for the transactions that are booked to others.
owns-append :
    (rows : List DedicatedAccount) (a : DedicatedAccount) (id : Uuid) (o : Option Uuid)
    → any (λ b. b.id == a.id) rows ≡ false
    → IsKnown rows o
    → owns (rows ++ a ∷ []) id o ≡ owns rows id o
owns-append rows a id none fresh known = refl
owns-append rows a id (some x) fresh known =
    any-append _ rows (a ∷ []) ∙ elim (Bool-cases (a.id == x)) [
      | inr apart ↦ rw apart (ground arith)
      | inl same ↦ absurd (
          true≢false
            (sym known ∙ ap (λ i. any (λ b. b.id == i) rows) (sym (==→eq a.id x same)) ∙ fresh))
    ]

credited_of_new :
    (rows : List DedicatedAccount) (a : DedicatedAccount) (ts : List Transaction) (id : Uuid)
    → any (λ b. b.id == a.id) rows ≡ false
    → All (IsBooked rows) ts
    → credited (rows ++ a ∷ []) ts id ≡ credited rows ts id
unfolding credited credit_of
credited_of_new rows a [] id fresh h = refl
credited_of_new rows a (t ∷ ts) id fresh (k, ks) =
    rw (owns-append rows a id t.dedicated_account_id fresh k, credited_of_new rows a ts id fresh ks)
      refl

IsKnown-append :
    (rows : List DedicatedAccount) (a : DedicatedAccount) (o : Option Uuid)
    → IsKnown rows o
    → IsKnown (rows ++ a ∷ []) o
IsKnown-append rows a none h = tt
IsKnown-append rows a (some x) h = any-true_append _ rows (a ∷ []) h

IsKnown-SameKeys :
    (xs ys : List DedicatedAccount) (o : Option Uuid) → SameKeys xs ys → IsKnown xs o → IsKnown ys o
IsKnown-SameKeys xs ys none h k = tt
IsKnown-SameKeys xs ys (some x) h k = any-SameKeys (λ i o. i == x) xs ys h ∙ k

module _ {customers : List Customer} {accounts : List DedicatedAccount}
    {ts : List Transaction} where
  pub IsSound-of_new_account :
      (a : DedicatedAccount)
      → any (λ b. b.id == a.id) accounts ≡ false
      → HasNone accounts a.customer_id
      → IsOwned customers a
      → IsSound customers accounts ts
      → IsSound customers (accounts ++ a ∷ []) ts
  IsSound-of_new_account a fresh first owner h = record {
    keyed = AreDistinct-append (λ b. b.id) a accounts fresh h.keyed;
    single = AreDistinct-append (λ b. b.customer_id) a accounts first h.single;
    owned = All-append (IsOwned customers) accounts (a ∷ []) h.owned (owner, tt);
    once = h.once;
    booked =
        All-mono (IsBooked accounts) (IsBooked (accounts ++ a ∷ [])) ts
          (λ t m. IsKnown-append accounts a t.dedicated_account_id) h.booked;
    balanced =
        All-mono (IsBalancedFor accounts ts) (IsBalancedFor (accounts ++ a ∷ []) ts) customers
          (λ c m k. k ∙ sym (credited_of_new accounts a ts c.id fresh h.booked)) h.balanced;
  }

  -- A row saved anew with the id and the owner of one in the table.
  pub IsSound-of_saved_account :
      (found a : DedicatedAccount)
      → Elem found accounts
      → a.id ≡ found.id
      → a.customer_id ≡ found.customer_id
      → IsSound customers accounts ts
      → IsSound customers (replace (λ r. r.id == a.id) a accounts) ts
  IsSound-of_saved_account found a known id owner h =
      let saved = replace (λ r. r.id == a.id) a accounts in
      let same : SameKeys accounts saved = SameKeys-replace a accounts (λ r m e.
        owner
        ∙ ap (λ (x : DedicatedAccount). x.customer_id)
            (distinct_unique (λ b. b.id) accounts found r h.keyed known m (sym id ∙ sym e))) in
      record {
        keyed = AreDistinct-SameKeys (λ i o. i) accounts saved same h.keyed;
        single = AreDistinct-SameKeys (λ i o. o) accounts saved same h.single;
        owned = IsOwned-SameKeys customers accounts saved same h.owned;
        once = h.once;
        booked =
            All-mono (IsBooked accounts) (IsBooked saved) ts
              (λ t m. IsKnown-SameKeys accounts saved t.dedicated_account_id same) h.booked;
        balanced =
            All-mono (IsBalancedFor accounts ts) (IsBalancedFor saved ts) customers
              (λ c m k. k ∙ sym (credited-SameKeys accounts saved ts c.id same)) h.balanced;
      }
