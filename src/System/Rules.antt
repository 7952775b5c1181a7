-- ===== src/System/Rules.antt =====
-- The writes and queries of the services, against the invariant of the ledger.
use ldb_backend_hack.Base.{
  pos, ◌≡◌, refl, ◌==◌, nat_eq, Bool, true, false, Option, none, some, List, [], ◌∷◌, any, select,
  head?, head?-select, head?-none, Elem, arith, Bool-cases, inl, inr, ==_comm, ==_refl, ◌∙◌,
  any-append,
}
use ldb_backend_hack.Model.{
  World, Customer, DedicatedAccount, Transaction, customer_conflict, account_conflict,
}
use ldb_backend_hack.Action.{Action, Result, ok, raised, ask}
use ldb_backend_hack.Action.Safe.{Safe, Ends, Safe-ask}
use ldb_backend_hack.Action.Steps.{ok_injective}
use ldb_backend_hack.Orm.{at_most_one}
use ldb_backend_hack.Orm.Memory.{memory, at_most_one-select}
use ldb_backend_hack.Tables.{
  create_customer, create_account, save_customer, save_account, delete_customer,
}
use ldb_backend_hack.Tables.Memory.{
  create_customer_new, create_customer_taken, create_account_new, create_account_taken,
}
use ldb_backend_hack.Responses.{first_account}
use ldb_backend_hack.Ledger.{Unchanged}
use ldb_backend_hack.Ledger.Keeps.{KeepsLedger}
use ldb_backend_hack.Ledger.Sound.{IsSound, IsOwned}
use ldb_backend_hack.Ledger.Sound.Customers.{
  HasNone, new_HasNone, IsSound-of_new_customer, IsSound-of_deleted_customer,
  IsSound-of_saved_customer,
}
use ldb_backend_hack.Ledger.Sound.Accounts.{IsSound-of_new_account, IsSound-of_saved_account}
use ldb_backend_hack.Ledger.Sound.Payments.{Sound}

-- A predicate on the three tables of the ledger.
abbrev pub On : (List Customer → List DedicatedAccount → List Transaction → Type 0) → World → Type 0
On P w = P w.customers w.accounts w.transactions

module _ {A : Type 0} (P : List Customer → List DedicatedAccount → List Transaction → Type 0) where
  -- What leaves the ledger alone keeps every predicate on it.
  pub Safe_of_keeps : {m : Action A} → KeepsLedger m → Safe (On P) m (λ _. On P) (On P)
  Safe_of_keeps {m} k = record { at = λ w h. go w (m w).0 (m w).1 (k.at w) h }
    where
      go :
          (w : World) (r : Result A) (v : World)
          → Unchanged w v
          → On P w
          → Ends (λ (_ : A). On P) (On P) (r, v)
      go w (ok a) v same h = rw (same.customers, same.accounts, same.transactions) h
      go w (raised e) v same h = rw (same.customers, same.accounts, same.transactions) h

-- A customer that has just been stored: nothing belongs to it yet.
abbrev pub New : Customer → List Customer → List DedicatedAccount → List Transaction → Type 0
New c customers accounts transactions =
    IsSound customers accounts transactions
    × (any (λ d. d.id == c.id) customers ≡ true)
    × HasNone accounts c.id

new_id :
    (c : Customer) (rows : List Customer)
    → any (customer_conflict c) rows ≡ false
    → any (λ d. d.id == c.id) rows ≡ false
new_id c [] h = refl
new_id c (d ∷ rows) h = ground (arith, new_id c rows, ==_comm c.id d.id)

new_account_id :
    (a : DedicatedAccount) (rows : List DedicatedAccount)
    → any (account_conflict a) rows ≡ false
    → any (λ b. b.id == a.id) rows ≡ false
new_account_id a [] h = refl
new_account_id a (b ∷ rows) h = ground (arith, new_account_id a rows, ==_comm a.id b.id)

pub create_customer-Safe :
    (c : Customer)
    → c.wallet_balance ≡ pos 0
    → Safe Sound (create_customer memory c) (λ d. On (New d)) Sound
create_customer-Safe c empty = record {
  at = λ w h. elim (Bool-cases (any (customer_conflict c) w.customers)) [
    | inl taken ↦ rw (create_customer_taken c w taken) h
    | inr free ↦
        let fresh = new_id c w.customers free in
        rw (create_customer_new c w free) (
          IsSound-of_new_customer c fresh empty h,
          any-append (λ d. d.id == c.id) w.customers (c ∷ []) ∙ rw (fresh, ==_refl c.id) refl,
          new_HasNone w.customers w.accounts c.id fresh h.owned,
        )
  ];
}

pub delete_customer-Safe :
    (c : Customer) → Safe (On (New c)) (delete_customer memory c) (λ _. Sound) Sound
unfolding delete_customer
delete_customer-Safe c = record {
  at = λ w (h, known, without). IsSound-of_deleted_customer c without h;
}

-- An account for a customer that is known and has none.
pub create_account-Safe :
    (a : DedicatedAccount)
    → Safe
        (On (λ cs rows ts. IsSound cs rows ts × IsOwned cs a × HasNone rows a.customer_id))
        (create_account memory a)
        (λ _. Sound)
        Sound
create_account-Safe a = record {
  at = λ w (h, owner, first). elim (Bool-cases (any (account_conflict a) w.accounts)) [
    | inl taken ↦ rw (create_account_taken a w taken) h
    | inr free ↦
        rw (create_account_new a w free)
          (IsSound-of_new_account a (new_account_id a w.accounts free) first owner h)
  ];
}

pub save_customer-Safe :
    (found c : Customer)
    → c.id ≡ found.id
    → c.wallet_balance ≡ found.wallet_balance
    → Safe
        (On (λ cs rows ts. IsSound cs rows ts × Elem found cs))
        (save_customer memory c)
        (λ _. Sound)
        Sound
unfolding save_customer
save_customer-Safe found c id wallet = record {
  at = λ w (h, known). IsSound-of_saved_customer found c known id wallet h;
}

pub save_account-Safe :
    (found a : DedicatedAccount)
    → a.id ≡ found.id
    → a.customer_id ≡ found.customer_id
    → Safe
        (On (λ cs rows ts. IsSound cs rows ts × Elem found rows))
        (save_account memory a)
        (λ _. Sound)
        Sound
unfolding save_account
save_account-Safe found a id owner = record {
  at = λ w (h, known). IsSound-of_saved_account found a known id owner h;
}

-- What the first account of a customer says of the table.
abbrev pub IsFirst : Customer → Option DedicatedAccount → List DedicatedAccount → Type 0
IsFirst c none rows = HasNone rows c.id
IsFirst c (some a) rows = Elem a rows

-- What `get_or_none` says of the table.
abbrev pub IsFound : Option Customer → List Customer → Type 0
IsFound none rows = Unit
IsFound (some c) rows = Elem c rows

module _ (P : List Customer → List DedicatedAccount → List Transaction → Type 0) where
  pub first_account-Safe :
      (c : Customer)
      → Safe
          (On P)
          (first_account memory c)
          (λ o. On (λ cs rows ts. P cs rows ts × IsFirst c o rows))
          (On P)
  unfolding first_account
  first_account-Safe c = Safe-ask _ (λ w o e h. (h, go o w.accounts (ok_injective e))) (λ w h. h)
    where
      go :
          (o : Option DedicatedAccount) (rows : List DedicatedAccount)
          → head? (select (λ a. a.customer_id == c.id) rows) ≡ o
          → IsFirst c o rows
      go none rows e = head?-none _ rows e
      go (some a) rows e = (head?-select _ rows e).0

  pub find_customer-Safe :
      (p : Customer → Bool)
      → Safe
          (On P)
          (ask (λ w. memory.get_or_none Customer p w.customers))
          (λ o. On (λ cs rows ts. P cs rows ts × IsFound o cs))
          (On P)
  find_customer-Safe p = Safe-ask _ (λ w o e h. (h, go o w.customers e)) (λ w h. h)
    where
      go :
          (o : Option Customer) (rows : List Customer)
          → at_most_one (select p rows) ≡ ok o
          → IsFound o rows
      go none rows e = tt
      go (some c) rows e = (at_most_one-select p rows e).0
