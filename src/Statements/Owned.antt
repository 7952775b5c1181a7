-- ===== src/Statements/Owned.antt =====
-- What the operations of the statement service are given where they get past their tests.
use ldb_backend_hack.Base.{
  ◌≡◌, sym, ap, ◌∙◌, subst, ◌==◌, nat_eq, ==→eq, not, Option, none, some, Elem, if◌then◌else◌, inl,
  inr, Bool-cases,
}
use ldb_backend_hack.Model.{World, Customer, DedicatedAccount, Uuid, transaction_status_eq}
use ldb_backend_hack.Action.{Result, ok, pure, raise, error_response}
use ldb_backend_hack.Action.Steps.{bind-eq-ok, ask_ok, ok_injective, raised_ne_ok}
use ldb_backend_hack.Orm.Memory.{memory, at_most_one-select, required-select}
use ldb_backend_hack.Reconciliation.{fetch_customer}
use ldb_backend_hack.Statements.{owned_by, owned_account}

abbrev pub IsOwned : World → Uuid → DedicatedAccount → Customer → Type 0
IsOwned w merchant_id a c =
    Elem c w.customers × (c.id ≡ a.customer_id) × (c.merchant_id ≡ merchant_id)

module _ (merchant_id : Uuid) {w' : World} {a : DedicatedAccount} {c : Customer} where
  after_merchant :
      (a' : DedicatedAccount) (c' : Customer) (v : World)
      → (if not (c'.merchant_id == merchant_id)
            then raise {A = DedicatedAccount × Customer}
                (error_response 404 "Account not found" none)
            else pure (a', c'))
          v
        ≡ (ok (a, c), w')
      → (w' ≡ v) × (a' ≡ a) × (c' ≡ c) × (c'.merchant_id ≡ merchant_id)
  unfolding pure raise
  after_merchant a' c' v h = elim (Bool-cases (c'.merchant_id == merchant_id)) [
    | inr alien ↦ absurd (
        raised_ne_ok _ _
          (ap (λ (x : Result (DedicatedAccount × Customer) × World). x.0) (rw alien at h)))
    | inl mine ↦
        let e = rw mine at h in
        let pair =
          ok_injective (ap (λ (x : Result (DedicatedAccount × Customer) × World). x.0) e) in
        (
          sym (ap (λ (x : Result (DedicatedAccount × Customer) × World). x.1) e),
          ap (λ (x : DedicatedAccount × Customer). x.0) pair,
          ap (λ (x : DedicatedAccount × Customer). x.1) pair,
          ==→eq _ _ mine,
        )
  ]

  owned_by_lem :
      (w : World) (o : Option DedicatedAccount)
      → owned_by memory merchant_id o w ≡ (ok (a, c), w')
      → (w' ≡ w) × (o ≡ some a) × IsOwned w merchant_id a c
  unfolding owned_by fetch_customer raise
  owned_by_lem w none h =
      absurd (raised_ne_ok _ _ (ap (λ (x : Result (DedicatedAccount × Customer) × World). x.0) h))
  owned_by_lem w (some a') h =
      let (c', v, e, e') = bind-eq-ok (fetch_customer memory a') _ h in
      let (still, found) = ask_ok _ w v e in
      let (same, same_a, same_c, mine) = after_merchant a' c' v e' in
      let row = required-select (λ (r : Customer). r.id == a'.customer_id) w.customers found in
      (
        same ∙ still,
        ap some same_a,
        (
          subst (λ r. Elem r w.customers) same_c row.0,
          ap (λ (r : Customer). r.id) (sym same_c)
              ∙ ==→eq _ _ row.1
              ∙ ap (λ (r : DedicatedAccount). r.customer_id) same_a,
          ap (λ (r : Customer). r.merchant_id) (sym same_c) ∙ mine,
        ),
      )

  pub owned_account_lem :
      (w : World) (account_id : Uuid)
      → owned_account memory account_id merchant_id w ≡ (ok (a, c), w')
      → (w' ≡ w) × Elem a w.accounts × (a.id ≡ account_id) × IsOwned w merchant_id a c
  unfolding owned_account
  owned_account_lem w account_id h =
      let (o, v, e, e') = bind-eq-ok _ (owned_by memory merchant_id) h in
      let (still, found) = ask_ok _ w v e in
      let (same, named, owned) =
        owned_by_lem w o
          (subst (λ u. owned_by memory merchant_id o u ≡ (ok (a, c), w')) still e') in
      let row =
        at_most_one-select (λ (r : DedicatedAccount). r.id == account_id) w.accounts
          (found ∙ ap ok named) in
      (same, row.0, ==→eq _ _ row.1, owned)
