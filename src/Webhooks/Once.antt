-- ===== src/Webhooks/Once.antt =====
-- Two deliveries of one webhook, and the ledger.
use ldb_backend_hack.Base.{
  ◌≡◌, refl, sym, subst, ◌∙◌, ◌==◌, nat_eq, string_eq, String, true, List, [], ◌∷◌, ◌++◌, any, inl,
  inr, ◌⊎◌, arith, ==_refl,
}
use mathlib.Core.Bool.{false≢true}
use ldb_backend_hack.Json.{Json}
use ldb_backend_hack.Model.{World, Transaction}
use ldb_backend_hack.Orm.{Orm, IsLawful}
use ldb_backend_hack.Orm.Memory.{memory, lawful-eq-memory}
use ldb_backend_hack.Runtime.{Runtime}
use ldb_backend_hack.Reconciliation.Books.{Processes, unread, books}
use ldb_backend_hack.Ledger.{Unchanged, unchanged, credits, parks}
use ldb_backend_hack.Webhooks.{receive}
use ldb_backend_hack.Webhooks.Effects.{NamesRequest, receive-Processes}

-- The request has a transaction.
abbrev pub IsEntered : String → World → Type 0
IsEntered request_id w = any (λ t. request_id == t.nomba_request_id) w.transactions ≡ true

-- A list to which the request's transaction was added holds it.
entered_after_append :
    (request_id : String) (ts : List Transaction) (t : Transaction)
    → t.nomba_request_id ≡ request_id
    → any (λ u. request_id == u.nomba_request_id) (ts ++ t ∷ []) ≡ true
entered_after_append request_id [] t e = rw e (rw (==_refl request_id) refl)
entered_after_append request_id (u ∷ ts) t e =
    ground (arith, entered_after_append request_id ts t e)

module _ (rt : Runtime) (request_id : String) (payload : Json) {w w' : World} where
  Processes-IsEntered :
      Processes rt request_id payload w w' → Unchanged w w' ⊎ IsEntered request_id w'
  Processes-IsEntered (unread h) = inl h
  Processes-IsEntered (books p read named (unchanged h)) = inl h
  Processes-IsEntered (books p read named (credits c)) = inr (
      subst (λ ts. any (λ u. request_id == u.nomba_request_id) ts ≡ true) (sym c.transactions)
        (entered_after_append request_id w.transactions c.entry (c.request ∙ named)))
  Processes-IsEntered (books p read named (parks c)) = inr (
      subst (λ ts. any (λ u. request_id == u.nomba_request_id) ts ≡ true) (sym c.transactions)
        (entered_after_append request_id w.transactions c.entry (c.request ∙ named)))

  pub Processes-of_entered :
      Processes rt request_id payload w w' → IsEntered request_id w → Unchanged w w'
  Processes-of_entered (unread h) entered = h
  Processes-of_entered (books p read named (unchanged h)) entered = h
  Processes-of_entered (books p read named (credits c)) entered =
      absurd (false≢true (sym c.is_fresh ∙ subst (λ r. IsEntered r w) (sym named) entered))
  Processes-of_entered (books p read named (parks c)) entered =
      absurd (false≢true (sym c.is_fresh ∙ subst (λ r. IsEntered r w) (sym named) entered))

receive_once_memory :
    (rt : Runtime) (first second : Json) (request_id : String) (w : World)
    → NamesRequest rt first request_id
    → NamesRequest rt second request_id
    → let w' = (receive memory rt first w).1 in
      Unchanged w w' ⊎ Unchanged w' (receive memory rt second w').1
receive_once_memory rt first second request_id w h k =
    elim (Processes-IsEntered rt request_id first (receive-Processes rt first request_id w h)) [
      | inl same ↦ inl same
      | inr entered ↦ inr (
          Processes-of_entered rt request_id second
            (receive-Processes rt second request_id (receive memory rt first w).1 k) entered)
    ]

-- Over any lawful ORM, two deliveries of one request, also of different bodies, and also if the
-- first of them raised an exception half-way, enter at most one payment: the first leaves
-- customers, accounts and transactions as they were, or the second does.
pub receive_once :
    (orm : Orm) (laws : IsLawful orm) (rt : Runtime) (first second : Json) (request_id : String)
    (w : World)
    → NamesRequest rt first request_id
    → NamesRequest rt second request_id
    → let w' = (receive orm rt first w).1 in
      Unchanged w w' ⊎ Unchanged w' (receive orm rt second w').1
receive_once orm laws rt first second request_id w h k =
    rw (lawful-eq-memory orm laws) (receive_once_memory rt first second request_id w h k)
