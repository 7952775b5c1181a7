-- ===== src/Ledger/Sound/Payments.antt =====
-- Payments entered in the ledger.
use ldb_backend_hack.Base.{
  pos, ◌≤ℤ◌, ◌≡◌, refl, sym, ap, ◌∙◌, subst, ◌==◌, nat_eq, string_eq, List, [], ◌∷◌, ◌++◌,
  any-append, any-replace, All, All-append, All-mono, Elem-any, arith, ==_refl, ==_comm, ==→eq,
}
use ldb_backend_hack.Model.{World, Transaction}
use ldb_backend_hack.Reconciliation.{Payment}
use ldb_backend_hack.Ledger.{
  Unchanged, Books, unchanged, credits, parks, IsFresh, IsKnown, IsBalanced,
}
use ldb_backend_hack.Ledger.Balance.{Books-IsBalanced}
use ldb_backend_hack.Ledger.Sound.{IsSound, IsOwned, IsSingle, IsBooked, AreOnce}

-- The invariant of a state.
abbrev pub Sound : World → Type 0
Sound w = IsSound w.customers w.accounts w.transactions

pub Sound-of_Unchanged : {w w' : World} → Unchanged w w' → Sound w → Sound w'
Sound-of_Unchanged c h = rw (c.customers, c.accounts, c.transactions) h

AreOnce-append :
    (e : Transaction) (rows : List Transaction)
    → IsFresh e.nomba_request_id rows
    → AreOnce rows
    → AreOnce (rows ++ e ∷ [])
AreOnce-append e [] h k = (refl, tt)
AreOnce-append e (t ∷ rows) h (k, ks) = (
  any-append _ rows (e ∷ []) ∙ rw k (ground (arith, ==_comm e.nomba_request_id t.nomba_request_id)),
  AreOnce-append e rows (ground arith) ks,
)

module _ (p : Payment) (w w' : World) (nonneg : pos 0 ≤ℤ p.amount) where
  IsOwned-after : Books p w w' → Sound w → All (IsOwned w'.customers) w.accounts
  IsOwned-after (unchanged c) h = rw c.customers h.owned
  IsOwned-after (parks c) h = rw c.customers h.owned
  IsOwned-after (credits c) h = rw c.customers (
      All-mono (IsOwned w.customers) _ w.accounts
        (λ a m k.
          any-replace (λ d. d.id == a.customer_id) (λ d. d.id == c.customer.id) _ w.customers
            (λ r n same. ap (λ i. i == a.customer_id) (sym (==→eq r.id c.customer.id same)))
          ∙ k)
        h.owned)

  IsBooked-after : Books p w w' → Sound w → All (IsBooked w.accounts) w'.transactions
  IsBooked-after (unchanged c) h = rw c.transactions h.booked
  IsBooked-after (parks c) h =
      rw c.transactions
        (All-append (IsBooked w.accounts) w.transactions (c.entry ∷ []) h.booked (c.booked_to, tt))
  IsBooked-after (credits c) h = rw c.transactions (
      All-append (IsBooked w.accounts) w.transactions (c.entry ∷ []) h.booked (
        subst (IsKnown w.accounts) (sym c.booked_to) (
            Elem-any (λ a. a.id == c.account.id) w.accounts c.account_known (==_refl c.account.id)),
        tt,
      ))

  AreOnce-after : Books p w w' → Sound w → AreOnce w'.transactions
  AreOnce-after (unchanged c) h = rw c.transactions h.once
  AreOnce-after (parks c) h = rw c.transactions (
      AreOnce-append c.entry w.transactions
        (subst (λ r. IsFresh r w.transactions) (sym c.request) c.is_fresh) h.once)
  AreOnce-after (credits c) h = rw c.transactions (
      AreOnce-append c.entry w.transactions
        (subst (λ r. IsFresh r w.transactions) (sym c.request) c.is_fresh) h.once)

  accounts_after : Books p w w' → w'.accounts ≡ w.accounts
  accounts_after (unchanged c) = c.accounts
  accounts_after (credits c) = c.accounts
  accounts_after (parks c) = c.accounts

  pub Sound-of_Books : Books p w w' → Sound w → Sound w'
  Sound-of_Books b h =
      let same = accounts_after b in
      let after : IsBalanced w' =
        Books-IsBalanced p w w' nonneg b (record { keyed = h.keyed; balanced = h.balanced }) in
      record {
        keyed = after.keyed;
        single = subst IsSingle (sym same) h.single;
        owned = subst (All (IsOwned w'.customers)) (sym same) (IsOwned-after b h);
        once = AreOnce-after b h;
        booked =
            subst (λ rows. All (IsBooked rows) w'.transactions) (sym same) (IsBooked-after b h);
        balanced = after.balanced;
      }
