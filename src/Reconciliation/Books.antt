-- ===== src/Reconciliation/Books.antt =====
-- What `process_payment` does to the ledger, on every path.
use ldb_backend_hack.Base.{
  ◌≡◌, refl, sym, subst, ◌∙◌, ap, ◌==◌, nat_eq, string_eq, String, Option, none, some, Elem,
  Elem-any, ==_refl, ==→eq, Bool-cases, inl, inr, if◌then◌else◌,
}
use ldb_backend_hack.Json.{Json}
use ldb_backend_hack.Model.{World, Customer, DedicatedAccount, active, account_status_eq}
use ldb_backend_hack.Action.{Result, ok, raised}
use ldb_backend_hack.Action.Reads.{Answers, SameTables}
use ldb_backend_hack.Action.Steps.{bind_elim, ask_ok, ask_raised}
use ldb_backend_hack.Constants.{reconciliation_quarantine, suspense_closed_account}
use ldb_backend_hack.Orm.{Orm, IsLawful}
use ldb_backend_hack.Orm.Memory.{memory, lawful-eq-memory, required-select}
use ldb_backend_hack.Runtime.{Runtime}
use ldb_backend_hack.Reconciliation.{
  Payment, read_payment, quarantine_payment, credit_payment, fetch_customer, find_account,
  route_payment, process_payment,
}
use ldb_backend_hack.Reconciliation.Entries.{quarantine_payment-Books, credit_payment-Books}
use ldb_backend_hack.Reconciliation.Search.{IsSearch, find_account-IsSearch}
use ldb_backend_hack.Reconciliation.Reading.{read_payment-Reads}
use ldb_backend_hack.Ledger.{Unchanged, Books, unchanged, credits, parks}
use ldb_backend_hack.Ledger.Keeps.{KeepsLedger-Reads, Unchanged-refl, Unchanged-trans}

module _ (rt : Runtime) (p : Payment) (event_type : String) where
  -- The account that was found is one of the table.
  route_payment-Books :
      (account : Option DedicatedAccount) (w : World)
      → ((a : DedicatedAccount) → account ≡ some a → Elem a w.accounts)
      → Books p w (route_payment memory rt p event_type account w).1
  unfolding route_payment fetch_customer
  route_payment-Books none w known = quarantine_payment-Books rt p _ _ none w tt
  route_payment-Books (some a) w known =
      bind_elim (fetch_customer memory a) _ w (λ x. Books p w x.1)
        (λ c w' e.
          let found = ask_ok _ w w' e in
          let payer =
            required-select (λ (c : Customer). c.id == a.customer_id) w.customers found.1 in
          subst
            (λ v.
              Books p w
                ((if a.status == active
                    then credit_payment memory rt p event_type a c
                    else quarantine_payment memory rt p suspense_closed_account
                        reconciliation_quarantine (some a))
                  v).1)
            (sym found.0)
            (elim (Bool-cases (a.status == active)) [
              | inl is_open ↦ rw is_open (
                  credit_payment-Books rt p event_type a c w (known a refl) payer.0
                    (==→eq c.id a.customer_id payer.1) (==→eq a.status active is_open))
              | inr is_shut ↦ rw is_shut (
                  quarantine_payment-Books rt p _ _ (some a) w
                    (Elem-any (λ b. b.id == a.id) w.accounts (known a refl) (==_refl a.id)))
            ]))
        (λ x w' e.
          subst (λ v. Books p w v) (sym (ask_raised _ w w' e)) (unchanged (Unchanged-refl w)))

-- The ledger sees nothing of what only the clock and `uuid4` saw.
Books-SameTables :
    (p : Payment) {w w' w'' : World} → SameTables w w' → Books p w' w'' → Books p w w''
Books-SameTables p {w} {w'} {w''} same (unchanged c) = unchanged (record {
  customers = c.customers ∙ ap (λ (v : World). v.customers) same;
  accounts = c.accounts ∙ ap (λ (v : World). v.accounts) same;
  transactions = c.transactions ∙ ap (λ (v : World). v.transactions) same;
})
Books-SameTables p {w} {w'} {w''} same b =
    let n = w'.ticks in
    let again : Books p (record w { ticks = n }) w'' = subst (λ v. Books p v w'') same b in
    retick again
  where
    retick : Books p (record w { ticks = w'.ticks }) w'' → Books p w w''
    retick (unchanged c) =
        unchanged
          (record { customers = c.customers; accounts = c.accounts; transactions = c.transactions })
    retick (credits c) = credits (record {
      account = c.account;
      customer = c.customer;
      entry = c.entry;
      time = c.time;
      account_known = c.account_known;
      customer_known = c.customer_known;
      owner = c.owner;
      is_active = c.is_active;
      is_fresh = c.is_fresh;
      request = c.request;
      amount = c.amount;
      booked_to = c.booked_to;
      status = c.status;
      transactions = c.transactions;
      accounts = c.accounts;
      customers = c.customers;
    })
    retick (parks c) = parks (record {
      entry = c.entry;
      is_fresh = c.is_fresh;
      request = c.request;
      amount = c.amount;
      booked_to = c.booked_to;
      status = c.status;
      transactions = c.transactions;
      accounts = c.accounts;
      customers = c.customers;
    })

-- What processing a webhook body does: nothing to the ledger if the body cannot be read, and
-- otherwise one of the three things that can happen to the payment that it names.
pub data Processes (rt : Runtime) (request_id : String) (payload : Json) (w w' : World)
    : Type 0 where
  unread : Unchanged w w' → Processes rt request_id payload w w'
  books :
      (p : Payment)
      → (read_payment rt request_id payload w).0 ≡ ok p
      → p.request_id ≡ request_id
      → Books p w w'
      → Processes rt request_id payload w w'

-- What keeps the ledger afterwards adds nothing.
Books-Unchanged : (p : Payment) {w w' w'' : World} → Books p w w' → Unchanged w' w'' → Books p w w''
Books-Unchanged p (unchanged c) k = unchanged (Unchanged-trans c k)
Books-Unchanged p (credits c) k = credits (record {
  account = c.account;
  customer = c.customer;
  entry = c.entry;
  time = c.time;
  account_known = c.account_known;
  customer_known = c.customer_known;
  owner = c.owner;
  is_active = c.is_active;
  is_fresh = c.is_fresh;
  request = c.request;
  amount = c.amount;
  booked_to = c.booked_to;
  status = c.status;
  transactions = k.transactions ∙ c.transactions;
  accounts = k.accounts ∙ c.accounts;
  customers = k.customers ∙ c.customers;
})
Books-Unchanged p (parks c) k = parks (record {
  entry = c.entry;
  is_fresh = c.is_fresh;
  request = c.request;
  amount = c.amount;
  booked_to = c.booked_to;
  status = c.status;
  transactions = k.transactions ∙ c.transactions;
  accounts = k.accounts ∙ c.accounts;
  customers = k.customers ∙ c.customers;
})

pub Processes-Unchanged :
    (rt : Runtime) (request_id : String) (payload : Json) {w w' w'' : World}
    → Processes rt request_id payload w w'
    → Unchanged w' w''
    → Processes rt request_id payload w w''
Processes-Unchanged rt request_id payload (unread h) k = unread (Unchanged-trans h k)
Processes-Unchanged rt request_id payload (books p read same b) k =
    books p read same (Books-Unchanged p b k)

module _ (rt : Runtime) (request_id event_type : String) (payload : Json) (w : World) where
  pub process_payment-Processes :
      Processes rt request_id payload w
        (process_payment memory rt request_id event_type payload w).1
  unfolding process_payment
  process_payment-Processes =
      let reads = (read_payment-Reads rt request_id payload).at w in
      bind_elim (read_payment rt request_id payload) _ w
        (λ x. Processes rt request_id payload w x.1)
        (λ p w₁ e.
          let answer : Answers
              (λ (p : Payment). (p.request_id ≡ request_id) × (p.raw_payload ≡ payload)) (ok p) =
            subst (Answers _) (ap (λ (x : Result Payment × World). x.0) e) reads.1 in
          let same : SameTables w w₁ =
            subst (SameTables w) (ap (λ (x : Result Payment × World). x.1) e) reads.0 in
          let search =
            find_account-IsSearch rt p.alias_account_reference w₁ p.alias_account_number in
          books p (ap (λ (x : Result Payment × World). x.0) e) answer.0 (
            Books-SameTables p same (
              bind_elim (find_account memory rt p.alias_account_number p.alias_account_reference) _
                w₁ (λ x. Books p w₁ x.1)
                (λ o w₂ found.
                  let s : IsSearch w₁ (ok o, w₂) = subst (IsSearch w₁) found search in
                  subst (λ v. Books p w₁ (route_payment memory rt p event_type o v).1) (sym s.0)
                    (route_payment-Books rt p event_type o w₁ (λ a q. s.1 a (ap ok q))))
                (λ x w₂ lost.
                  let s : IsSearch w₁ (raised x, w₂) = subst (IsSearch w₁) lost search in
                  subst (Books p w₁) (sym s.0) (unchanged (Unchanged-refl w₁))))))
        (λ x w₁ e. unread (
          subst (Unchanged w) (ap (λ (x : Result Payment × World). x.1) e)
            ((KeepsLedger-Reads (read_payment-Reads rt request_id payload)).at w)))

-- Over any lawful ORM, processing a webhook body leaves customers, accounts and transactions as
-- they are; or it enters the payment that was read, once, for an active account, with the status
-- that its customer's target gives, and adds the amount to that customer's wallet and to no
-- other; or it enters it as misdirected and changes no wallet. This holds on every error path too.
pub process_payment_lem :
    (orm : Orm) (laws : IsLawful orm) (rt : Runtime) (request_id event_type : String)
    (payload : Json) (w : World)
    → Processes rt request_id payload w (process_payment orm rt request_id event_type payload w).1
process_payment_lem orm laws rt request_id event_type payload w =
    rw (lawful-eq-memory orm laws) (process_payment-Processes rt request_id event_type payload w)
