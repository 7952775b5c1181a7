-- ===== src/Customers/Updated.antt =====
-- What an update of a customer's profile changes, and what it leaves.
use ldb_backend_hack.Base.{
  ℕ, ◌≡◌, refl, sym, ap, ap₂, ◌==◌, nat_eq, String, Option, none, some, List, Elem, head?, select,
  replace, ◌⊎◌, inl, inr,
}
use ldb_backend_hack.Model.{World, Customer, DedicatedAccount, Transaction, Uuid}
use ldb_backend_hack.Action.{ask, ◌>>=◌, ◌>>◌}
use ldb_backend_hack.Action.Safe.{Safe, Ends, Safe-bind, Safe-pure, Safe-raise, Safe-weaken}
use ldb_backend_hack.Orm.{Orm, IsLawful}
use ldb_backend_hack.Orm.Memory.{memory, lawful-eq-memory}
use ldb_backend_hack.Runtime.{Runtime, clock}
use ldb_backend_hack.Tables.{save_customer, save_account}
use ldb_backend_hack.Nomba.{Answer}
use ldb_backend_hack.Responses.{first_account, build_customer_response}
use ldb_backend_hack.Customers.{UpdateCustomer, or_keep, or_keep_option}
use ldb_backend_hack.Customers.Profile.{
  updated, rename_account, rename, update_found, customer_update,
}
use ldb_backend_hack.Customers.Shown.{IsMine, Same, resolve_customer-IsMine}
use ldb_backend_hack.System.Rules.{On, Safe_of_keeps}
use ldb_backend_hack.System.Customers.{
  update_account_name-KeepsLedger, build_customer_response-KeepsLedger,
}

-- The first account of the customer has the new name, and nothing else of the table has changed.
abbrev pub IsRenaming :
    Option String → Customer → List DedicatedAccount → List DedicatedAccount → Type 0
IsRenaming none c rows rows' = rows' ≡ rows
IsRenaming (some name) c rows rows' =
    ((head? (select (λ a. a.customer_id == c.id) rows) ≡ none) × (rows' ≡ rows))
    ⊎ ((a : DedicatedAccount) × (t : ℕ) × (head? (select (λ a. a.customer_id == c.id) rows)
          ≡ some a)
        × (rows'
            ≡ replace (λ r. r.id == a.id) (record a { account_name = name; updated_at = t }) rows))

-- The fields of the request have been written to one customer of the merchant, and its name to the
-- account; the wallet and the transactions are as they were.
pub record IsUpdated (parse_uuid : String → Option Uuid) (customer_id : String) (merchant_id : Uuid)
    (body : UpdateCustomer) (w w' : World) : Type 0 where
  pub customer : Customer
  pub time : ℕ
  pub known : Elem customer w.customers
  pub merchant : customer.merchant_id ≡ merchant_id
  pub named :
      (parse_uuid customer_id ≡ some customer.id) ⊎ (customer.merchant_customer_id ≡ customer_id)
  pub customers :
      w'.customers
      ≡ replace
          (λ r. r.id == customer.id)
          (record customer {
            name = or_keep body.name customer.name;
            email = or_keep_option body.email customer.email;
            phone = or_keep_option body.phone customer.phone;
            target_amount = or_keep_option body.target_amount customer.target_amount;
            metadata = or_keep body.metadata customer.metadata;
            updated_at = time;
          })
          w.customers
  pub accounts : IsRenaming body.name customer w.accounts w'.accounts
  pub transactions : w'.transactions ≡ w.transactions

module _ (rt : Runtime) (nomba_update : String → String → Answer) (w₀ : World) (c : Customer)
    (saved : List Customer) where
  -- The customer has been saved; what the accounts are may be said.
  abbrev With :
      (List DedicatedAccount → Type 0)
      → List Customer
      → List DedicatedAccount
      → List Transaction
      → Type 0
  With P cs rows ts = (cs ≡ saved) × P rows × (ts ≡ w₀.transactions)

  rename_account-Safe :
      (name : String) (o : Option DedicatedAccount)
      → head? (select (λ a. a.customer_id == c.id) w₀.accounts) ≡ o
      → Safe
          (On (With (λ rows. rows ≡ w₀.accounts)))
          (rename_account memory rt nomba_update name o)
          (λ _. On (With (IsRenaming (some name) c w₀.accounts)))
          (On (With (IsRenaming (some name) c w₀.accounts)))
  unfolding rename_account save_account clock
  rename_account-Safe name none first =
      Safe-pure tt (λ w (cs, rows, ts). (cs, inl (first, rows), ts))
  rename_account-Safe name (some a) first =
      let renamed : List DedicatedAccount → Type 0 = IsRenaming (some name) c w₀.accounts in
      Safe-bind {R = λ t. On (With (λ rows. rows ≡ w₀.accounts))} _ _ (record { at = λ w h. h })
        (λ t.
          Safe-bind {R = λ b. On (With renamed)} _ _
            (record {
              at = λ w (cs, rows, ts).
                  (cs, inr (a, t, first, ap (replace (λ r. r.id == a.id) _) rows), ts);
            })
            (λ b.
              Safe-bind _ _ (Safe_of_keeps (With renamed) (update_account_name-KeepsLedger _))
                (λ _. Safe-pure tt (λ w h. h))))

  rename-Safe :
      (name : Option String)
      → (d : Customer) → d.id ≡ c.id
      → Safe
          (On (With (λ rows. rows ≡ w₀.accounts)))
          (rename memory rt nomba_update name d)
          (λ _. On (With (IsRenaming name c w₀.accounts)))
          (On (With (IsRenaming name c w₀.accounts)))
  unfolding rename first_account ask
  rename-Safe none d same = Safe-pure tt (λ w h. h)
  rename-Safe (some name) d same =
      Safe-bind
        {R = λ o w.
          On (With (λ rows. rows ≡ w₀.accounts)) w
          × (head? (select (λ a. a.customer_id == c.id) w₀.accounts) ≡ o)}
        _ _
        (record {
          at = λ w h. (
            h,
            ap₂ (λ rows i. head? (select (λ a. a.customer_id == i) rows)) (sym h.1) (sym same),
          );
        })
        (λ o. record { at = λ w h. (rename_account-Safe name o h.1).at w h.0 })

module _ (rt : Runtime) (nomba_update : String → String → Answer)
    (parse_uuid : String → Option Uuid) (customer_id : String) (m : Uuid) (body : UpdateCustomer)
    (w₀ : World) where
  abbrev Update : World → Type 0
  Update w = IsUpdated parse_uuid customer_id m body w₀ w

  abbrev row : Customer → ℕ → Customer
  row c t = record c {
    name = or_keep body.name c.name;
    email = or_keep_option body.email c.email;
    phone = or_keep_option body.phone c.phone;
    target_amount = or_keep_option body.target_amount c.target_amount;
    metadata = or_keep body.metadata c.metadata;
    updated_at = t;
  }

  abbrev saved_rows : Customer → ℕ → List Customer
  saved_rows c t = replace (λ r. r.id == c.id) (row c t) w₀.customers

  -- The tables after the writes.
  abbrev Written : Customer → ℕ → World → Type 0
  Written c t = On (With rt nomba_update w₀ c (saved_rows c t) (IsRenaming body.name c w₀.accounts))

  finish :
      (c : Customer) (t : ℕ) (w : World)
      → IsMine parse_uuid customer_id m w₀ (some c)
      → Written c t w
      → Update w
  finish c t w (known, merchant, named) (cs, rows, ts) = record {
    customer = c;
    time = t;
    known = known;
    merchant = merchant;
    named = named;
    customers = cs;
    accounts = rows;
    transactions = ts;
  }

  write-Safe :
      (c : Customer) (t : ℕ)
      → Safe
          (Same w₀)
          (save_customer memory (record (updated body c) { updated_at = t }) >>= λ customer.
            rename memory rt nomba_update body.name customer
            >> build_customer_response memory rt customer)
          (λ _. Written c t)
          (Written c t)
  unfolding save_customer updated
  write-Safe c t =
      Safe-bind
        {R = λ d w.
          (d.id ≡ c.id)
          × On (With rt nomba_update w₀ c (saved_rows c t) (λ rows. rows ≡ w₀.accounts)) w}
        _ _
        (record {
          at = λ w h. (
            refl,
            (
              ap (λ (v : World). replace (λ r. r.id == c.id) (row c t) v.customers) h,
              ap (λ (v : World). v.accounts) h,
              ap (λ (v : World). v.transactions) h,
            ),
          );
        })
        (λ d. record { at = λ w h. (after d h.0).at w h.1 })
    where
      after :
          (d : Customer)
          → d.id ≡ c.id
          → Safe
              (On (With rt nomba_update w₀ c (saved_rows c t) (λ rows. rows ≡ w₀.accounts)))
              (rename memory rt nomba_update body.name d >> build_customer_response memory rt d)
              (λ _. Written c t)
              (Written c t)
      after d same =
          Safe-bind _ _ (rename-Safe rt nomba_update w₀ c (saved_rows c t) body.name d same) (λ _.
            Safe_of_keeps
              (With rt nomba_update w₀ c (saved_rows c t) (IsRenaming body.name c w₀.accounts))
              (build_customer_response-KeepsLedger rt d))

  update_found-Safe :
      (o : Option Customer)
      → Safe
          (λ w. IsMine parse_uuid customer_id m w₀ o × Same w₀ w)
          (update_found memory rt nomba_update body o)
          (λ _. Update)
          (λ w. (w ≡ w₀) ⊎ Update w)
  unfolding update_found clock
  update_found-Safe none = Safe-raise _ (λ w h. inl h.1)
  update_found-Safe (some c) = record {
    at = λ w h.
        (Safe-bind {R = λ t. Same w₀} _ _ (record { at = λ v k. k })
            (λ t.
              Safe-weaken _ (write-Safe c t) (λ r v k. finish c t v h.0 k)
                (λ v k. inr (finish c t v h.0 k)))).at
          w h.1;
  }

  customer_update-Safe :
      Safe
        (Same w₀)
        (customer_update memory rt nomba_update parse_uuid customer_id body m)
        (λ _. Update)
        (λ w. (w ≡ w₀) ⊎ Update w)
  unfolding customer_update
  customer_update-Safe =
      Safe-bind _ _
        (Safe-weaken _ (resolve_customer-IsMine parse_uuid customer_id m w₀) (λ o w h. h)
          (λ w h. inl h))
        update_found-Safe

-- Over any lawful ORM, an update that returns has written the fields of the request, and no others,
-- to the customer of the merchant that was named, and the name to that customer's first account; an
-- update that raises has changed nothing or has written all of that. The wallet and the
-- transactions stay as they were.
pub customer_update-IsUpdated :
    (orm : Orm) (laws : IsLawful orm) (rt : Runtime) (nomba_update : String → String → Answer)
    (parse_uuid : String → Option Uuid) (customer_id : String) (body : UpdateCustomer)
    (merchant_id : Uuid) (w : World)
    → Ends
        (λ r w'. IsUpdated parse_uuid customer_id merchant_id body w w')
        (λ w'. (w' ≡ w) ⊎ IsUpdated parse_uuid customer_id merchant_id body w w')
        (customer_update orm rt nomba_update parse_uuid customer_id body merchant_id w)
customer_update-IsUpdated orm laws rt nomba_update parse_uuid customer_id body merchant_id w =
    rw (lawful-eq-memory orm laws)
      ((customer_update-Safe rt nomba_update parse_uuid customer_id merchant_id body w).at w refl)
