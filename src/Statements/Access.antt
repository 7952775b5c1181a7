-- ===== src/Statements/Access.antt =====
-- Whose transactions the statement service shows.
use mathlib.Core.Bool.{true≢false}
use mathlib.Core.Option
use mathlib.Core.List.{Perm}
use ldb_backend_hack.Base.{
  ◌≡◌, refl, sym, ap, ◌∙◌, subst, ◌-◌, ◌*◌, ◌==◌, nat_eq, option_eq, ==_refl, ==→eq, none, some,
  Option, Bool, false, Bool-cases, inl, inr, Elem, List, [], ◌∷◌, select, map, take, drop, length,
}
use ldb_backend_hack.Model.{World, Customer, DedicatedAccount, Transaction, Uuid}
use ldb_backend_hack.Action.{ok}
use ldb_backend_hack.Action.Steps.{bind-eq-ok, ask_ok, ok_injective}
use ldb_backend_hack.Orm.{Orm, IsLawful}
use ldb_backend_hack.Orm.Memory.{memory, lawful-eq-memory}
use ldb_backend_hack.Statements.{
  PaginateFilter, TransactionPage, view_of, booked_to, page_of, owned_account, account_transactions,
  list_transactions,
}
use ldb_backend_hack.Statements.Owned.{owned_account_lem}

-- The account is one of a customer of the merchant.
pub record IsOf (w : World) (account_id merchant_id : Uuid) : Type 0 where
  pub account : DedicatedAccount
  pub customer : Customer
  pub account_known : Elem account w.accounts
  pub customer_known : Elem customer w.customers
  pub id : account.id ≡ account_id
  pub owner : customer.id ≡ account.customer_id
  pub merchant : customer.merchant_id ≡ merchant_id

-- The page shows its share of the transactions that name the account, in the order of the query,
-- and counts all of them.
pub record IsPageOf (newest_first : List Transaction → List Transaction) (account_id : Uuid)
    (w : World) (filters : PaginateFilter) (page : TransactionPage) : Type 0 where
  pub rows : List Transaction
  pub ordered :
      rows ≡ newest_first (select (λ t. t.dedicated_account_id == some account_id) w.transactions)
  pub complete : Perm rows (select (λ t. t.dedicated_account_id == some account_id) w.transactions)
  pub items :
      page.items ≡ map view_of (take filters.limit (drop ((filters.page - 1) * filters.limit) rows))
  pub total : page.total ≡ length rows

-- The filter on the account's id, as a test on the column.
same_account :
    (account_id : Uuid) (o : Option Uuid)
    → ◌≡◌ {A = Bool} (elim o [ none ↦ false | some id ↦ id == account_id ]) (o == some account_id)
same_account account_id none = elim (Bool-cases (none == some account_id)) [
  | inl same ↦ absurd (Option.none-ne-some account_id (==→eq none (some account_id) same))
  | inr differ ↦ sym differ
]
same_account account_id (some id) = elim (Bool-cases (id == account_id)) [
  | inl same ↦
      let e : id ≡ account_id = ==→eq id account_id same in
      same ∙ sym (rw e (==_refl (some account_id)))
  | inr other ↦ elim (Bool-cases (some id == some account_id)) [
    | inl same ↦
        let e : id ≡ account_id =
          Option.some-injective id account_id (==→eq (some id) (some account_id) same) in
        absurd (true≢false (sym (rw e (==_refl account_id)) ∙ other))
    | inr differ ↦ other ∙ sym differ
  ]
]

booked_to-eq :
    (account_id : Uuid) (rows : List Transaction)
    → select (booked_to account_id) rows
      ≡ select (λ t. t.dedicated_account_id == some account_id) rows
booked_to-eq account_id [] = refl
booked_to-eq account_id (t ∷ rows) =
    rw (same_account account_id t.dedicated_account_id, booked_to-eq account_id rows) refl

module _ (newest_first : List Transaction → List Transaction)
    (sorts : (ts : List Transaction) → Perm (newest_first ts) ts) (account_id merchant_id : Uuid)
    (w w' : World) where
  page_of-IsPageOf :
      (filters : PaginateFilter)
      → IsPageOf newest_first account_id w filters (
          page_of memory newest_first filters
            (account_transactions memory newest_first account_id w))
  unfolding page_of account_transactions
  page_of-IsPageOf filters = record {
    rows = newest_first (select (booked_to account_id) w.transactions);
    ordered = ap newest_first (booked_to-eq account_id w.transactions);
    complete = subst (Perm _) (booked_to-eq account_id w.transactions) (sorts _);
    items = refl;
    total = refl;
  }

  list_transactions-memory :
      (filters : PaginateFilter) (page : TransactionPage)
      → list_transactions memory newest_first account_id merchant_id filters w ≡ (ok page, w')
      → (w' ≡ w) × IsOf w account_id merchant_id × IsPageOf newest_first account_id w filters page
  unfolding list_transactions
  list_transactions-memory filters page h =
      let (pair, v, e, e') = bind-eq-ok (owned_account memory account_id merchant_id) _ h in
      let (same, known, named, (payer, owner, mine)) =
        owned_account_lem merchant_id w account_id e in
      let (still, made) = ask_ok _ v w' e' in
      (
        still ∙ same,
        record {
          account = pair.0;
          customer = pair.1;
          account_known = known;
          customer_known = payer;
          id = named;
          owner = owner;
          merchant = mine;
        },
        subst (IsPageOf newest_first account_id w filters)
            (ap
                (λ i.
                  page_of memory newest_first filters
                    (account_transactions memory newest_first i w))
                (sym named)
              ∙ ap
                  (λ u.
                    page_of memory newest_first filters
                      (account_transactions memory newest_first pair.0.id u))
                  (sym same)
              ∙ ok_injective made)
            (page_of-IsPageOf filters),
      )

-- Over any lawful ORM, if the order by creation time only permutes, a page is answered only for an
-- account of a customer of the calling merchant; it shows its share of the transactions that name
-- that account, of all of them and of no others, and gives their number; the state stays as it is.
pub list_transactions-IsOf :
    (orm : Orm) (laws : IsLawful orm) (newest_first : List Transaction → List Transaction)
    (sorts : (ts : List Transaction) → Perm (newest_first ts) ts) (account_id merchant_id : Uuid)
    (w w' : World) (filters : PaginateFilter) (page : TransactionPage)
    → list_transactions orm newest_first account_id merchant_id filters w ≡ (ok page, w')
    → (w' ≡ w) × IsOf w account_id merchant_id × IsPageOf newest_first account_id w filters page
list_transactions-IsOf orm laws newest_first sorts account_id merchant_id w w' filters page h =
    list_transactions-memory newest_first sorts account_id merchant_id w w' filters page
      (rw (lawful-eq-memory orm laws) at h)
