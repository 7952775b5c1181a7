-- ===== src/Customers/Shown.antt =====
-- Whose profile the customer service shows.
use ldb_backend_hack.Base.{
  ◌≡◌, refl, sym, ap, subst, ◌∙◌, ◌==◌, nat_eq, string_eq, ==→eq, Bool, true, String, Option, none,
  some, Elem, head?, select, arith, ◌⊎◌, inl, inr,
}
use ldb_backend_hack.Model.{World, Customer, Uuid}
use ldb_backend_hack.Action.{ok, ask}
use ldb_backend_hack.Action.Safe.{Safe, Ends, Safe-bind, Safe-pure, Safe-raise, Safe-ask, Safe-from}
use ldb_backend_hack.Action.Steps.{ok_injective}
use ldb_backend_hack.Orm.{Orm, IsLawful, at_most_one}
use ldb_backend_hack.Orm.Memory.{memory, lawful-eq-memory, at_most_one-select}
use ldb_backend_hack.Runtime.{Runtime}
use ldb_backend_hack.Helpers.{customer_status, outstanding_balance}
use ldb_backend_hack.Responses.{
  CustomerResponse, summary_of, first_account, build_customer_response,
}
use ldb_backend_hack.Customers.{by_merchant_customer_id}
use ldb_backend_hack.Customers.Profile.{
  by_id, or_by_merchant_id, resolve_customer, show_customer, customer_get,
}

-- The response shows a stored customer of the merchant, named by its id or by the merchant's own
-- id for it, with its wallet and the first of its accounts.
pub record IsProfile (parse_uuid : String → Option Uuid) (customer_id : String) (merchant_id : Uuid)
    (w : World) (r : CustomerResponse) : Type 0 where
  pub customer : Customer
  pub known : Elem customer w.customers
  pub merchant : customer.merchant_id ≡ merchant_id
  pub named :
      (parse_uuid customer_id ≡ some customer.id) ⊎ (customer.merchant_customer_id ≡ customer_id)
  pub id : r.id ≡ customer.id
  pub wallet : r.wallet_balance ≡ customer.wallet_balance
  pub outstanding : r.outstanding_balance ≡ outstanding_balance customer
  pub status : r.status ≡ customer_status customer
  pub account :
      r.dedicated_account
      ≡ summary_of (head? (select (λ a. a.customer_id == customer.id) w.accounts))

abbrev pub Same : World → World → Type 0
Same w₀ w = w ≡ w₀

module _ (parse_uuid : String → Option Uuid) (customer_id : String) (m : Uuid) (w₀ : World) where
  abbrev pub IsNamed : Customer → Type 0
  IsNamed c = (parse_uuid customer_id ≡ some c.id) ⊎ (c.merchant_customer_id ≡ customer_id)

  abbrev pub IsMine : Option Customer → Type 0
  IsMine none = Unit
  IsMine (some c) = Elem c w₀.customers × (c.merchant_id ≡ m) × IsNamed c

  find :
      (p : Customer → Bool)
      → ((c : Customer) → p c ≡ true → (c.merchant_id ≡ m) × IsNamed c)
      → Safe
          (Same w₀)
          (ask (λ w. memory.get_or_none Customer p w.customers))
          (λ o w. IsMine o × Same w₀ w)
          (Same w₀)
  find p mine = Safe-ask _ (λ w o e h. (go w o e h, h)) (λ w h. h)
    where
      go :
          (w : World) (o : Option Customer)
          → at_most_one (select p w.customers) ≡ ok o
          → w ≡ w₀
          → IsMine o
      go w none e h = tt
      go w (some c) e h =
          let (known, pass) = at_most_one-select p w.customers e in
          let (merchant, named) = mine c pass in
          (subst (λ (v : World). Elem c v.customers) h known, merchant, named)

  by_id-Safe :
      (o : Option Uuid)
      → parse_uuid customer_id ≡ o
      → Safe (Same w₀) (by_id memory parse_uuid m o) (λ o w. IsMine o × Same w₀ w) (Same w₀)
  unfolding by_id
  by_id-Safe none parsed = Safe-pure none (λ w h. (tt, h))
  by_id-Safe (some id) parsed = find _ (λ c pass. (
    ==→eq c.merchant_id m (ground arith),
    inl (parsed ∙ ap some (sym (==→eq c.id id (ground arith)))),
  ))

  or_by_merchant_id-Safe :
      (o : Option Customer)
      → Safe
          (λ w. IsMine o × Same w₀ w)
          (or_by_merchant_id memory parse_uuid customer_id m o)
          (λ o w. IsMine o × Same w₀ w)
          (Same w₀)
  unfolding or_by_merchant_id by_merchant_customer_id
  or_by_merchant_id-Safe (some c) = Safe-pure (some c) (λ w h. h)
  or_by_merchant_id-Safe none =
      Safe-from _
        (find _ (λ c pass. (
          ==→eq c.merchant_id m (ground arith),
          inr (==→eq c.merchant_customer_id customer_id (ground arith)),
        )))
        (λ w h. h.1)

  pub resolve_customer-IsMine :
      Safe
        (Same w₀)
        (resolve_customer memory parse_uuid customer_id m)
        (λ o w. IsMine o × Same w₀ w)
        (Same w₀)
  unfolding resolve_customer
  resolve_customer-IsMine =
      Safe-bind _ _ (by_id-Safe (parse_uuid customer_id) refl) or_by_merchant_id-Safe

module _ (rt : Runtime) (parse_uuid : String → Option Uuid) (customer_id : String) (m : Uuid)
    (w₀ : World) where
  show_customer-Safe :
      (o : Option Customer)
      → Safe
          (λ w. IsMine parse_uuid customer_id m w₀ o × Same w₀ w)
          (show_customer memory rt parse_uuid o)
          (λ r w. IsProfile parse_uuid customer_id m w₀ r × Same w₀ w)
          (Same w₀)
  unfolding show_customer build_customer_response first_account
  show_customer-Safe none = Safe-raise _ (λ w h. h.1)
  show_customer-Safe (some c) =
      Safe-bind _ _
        (Safe-ask
          {Q = λ a w.
            (IsMine parse_uuid customer_id m w₀ (some c) × (w ≡ w₀))
            × (a ≡ head? (select (λ x. x.customer_id == c.id) w₀.accounts))}
          _
          (λ w a e h. (
            h,
            sym (ok_injective e)
                ∙ ap (λ (v : World). head? (select (λ x. x.customer_id == c.id) v.accounts)) h.1,
          ))
          (λ w h. h.1))
        (λ a. Safe-pure _ (λ w h. (
          record {
            customer = c;
            known = h.0.0.0;
            merchant = h.0.0.1;
            named = h.0.0.2;
            id = refl;
            wallet = refl;
            outstanding = refl;
            status = refl;
            account = ap summary_of h.1;
          },
          h.0.1,
        )))

  customer_get-Safe :
      Safe
        (Same w₀)
        (customer_get memory rt parse_uuid customer_id m)
        (λ r w. IsProfile parse_uuid customer_id m w₀ r × Same w₀ w)
        (Same w₀)
  unfolding customer_get
  customer_get-Safe =
      Safe-bind _ _ (resolve_customer-IsMine parse_uuid customer_id m w₀) show_customer-Safe

-- Over any lawful ORM, the service shows the profile of a stored customer of the calling merchant
-- alone, with its own wallet, status and account, and only where the id that was asked for is its
-- id or the merchant's id for it; any other call raises an exception, and none changes the state.
pub customer_get-IsProfile :
    (orm : Orm) (laws : IsLawful orm) (rt : Runtime) (parse_uuid : String → Option Uuid)
    (customer_id : String) (merchant_id : Uuid) (w : World)
    → Ends
        (λ r w'. IsProfile parse_uuid customer_id merchant_id w r × (w' ≡ w))
        (λ w'. w' ≡ w)
        (customer_get orm rt parse_uuid customer_id merchant_id w)
customer_get-IsProfile orm laws rt parse_uuid customer_id merchant_id w =
    rw (lawful-eq-memory orm laws)
      ((customer_get-Safe rt parse_uuid customer_id merchant_id w).at w refl)
