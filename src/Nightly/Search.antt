-- ===== src/Nightly/Search.antt =====
-- The search of the nightly job for an item's transaction.
use ldb_backend_hack.Base.{
  List, [], ◌∷◌, head?, ap, ◌∙◌, Bool-cases, inl, inr, ◌≡◌, refl, subst, String, ◌==◌, string_eq,
  option_eq, Bool, Option, none, some, select, Elem, if◌then◌else◌,
}
use ldb_backend_hack.Json.{Json, null, object, Fields, truthy}
use ldb_backend_hack.Model.{World, Transaction}
use ldb_backend_hack.Action.{Action, ok, pure, lift, ask, ◌>>=◌}
use ldb_backend_hack.Action.Safe.{Safe, Safe-bind, Safe-pure, Safe-ask, Safe-weaken}
use ldb_backend_hack.Orm.{at_most_one}
use ldb_backend_hack.Orm.Memory.{memory, at_most_one-select}
use ldb_backend_hack.Runtime.{Runtime, get_default, py_str}
use ldb_backend_hack.Runtime.Dicts.{got, get_default_lem}
use ldb_backend_hack.Nightly.{Tally, by_transaction_id, by_merchant_tx_ref, or_by_ref, find_local}
use ldb_backend_hack.Nightly.Checks.{Checked, Progress, with_id, with_ref, or_else, local_of}

-- What the search found is in the table.
abbrev pub IsFound : World → Option Transaction → Type 0
IsFound w none = Unit
IsFound w (some t) = Elem t w.transactions

module _ {B : Type 0} {P : World → Type 0} {Q : B → World → Type 0} {E : World → Type 0} where
  -- A dict's `get` goes on with what it finds.
  pub Safe-get :
      (key : String) (fields : Fields) (f : Json → Action B)
      → Safe P (f (got key fields)) Q E
      → Safe P (lift (get_default (object fields) key null) >>= f) Q E
  unfolding ◌>>=◌
  Safe-get key fields f k = rw (get_default_lem key fields) k

-- A query that answers at all answers with the first row that passes.
at_most_one-head? :
    {Row : Type 0} (rows : List Row) (o : Option Row) → at_most_one rows ≡ ok o → o ≡ head? rows
at_most_one-head? [] o h = cc
at_most_one-head? (r ∷ []) o h = cc
at_most_one-head? (r ∷ s ∷ rest) o h = cc

module _ (rt : Runtime) {w₀ : World} (seen : List (Option Transaction)) (tally : Tally) where
  query :
      (p : Transaction → Bool)
      → Safe
          (Progress w₀ seen tally)
          (ask (λ w. memory.get_or_none Transaction p w.transactions))
          (λ found w.
            IsFound w₀ found
            × (found ≡ head? (select p w₀.transactions))
            × Progress w₀ seen tally w)
          (Checked w₀)
  query p = Safe-ask _ (λ w o e h. (go w o e h.0, same w o e h.0, h)) (λ w h. h.0)
    where
      go :
          (w : World) (o : Option Transaction)
          → at_most_one (select p w.transactions) ≡ ok o
          → Checked w₀ w
          → IsFound w₀ o
      go w none e c = tt
      go w (some t) e c =
          subst (λ (v : World). Elem t v.transactions) c.state
            (at_most_one-select p w.transactions e).0

      same :
          (w : World) (o : Option Transaction)
          → at_most_one (select p w.transactions) ≡ ok o
          → Checked w₀ w
          → o ≡ head? (select p w₀.transactions)
      same w o e c =
          at_most_one-head? (select p w.transactions) o e
          ∙ ap (λ (v : World). head? (select p v.transactions)) c.state

  pub find_local-Safe :
      (id ref : Json)
      → Safe
          (Progress w₀ seen tally)
          (find_local memory rt id ref)
          (λ found w.
            IsFound w₀ found
            × (found ≡ local_of rt w₀.transactions id ref)
            × Progress w₀ seen tally w)
          (Checked w₀)
  unfolding find_local by_transaction_id by_merchant_tx_ref or_by_ref
  find_local-Safe id ref = Safe-bind _ _ search_by_id go
    where
      search_by_id :
          Safe
            (Progress w₀ seen tally)
            (if truthy id then by_transaction_id memory rt id else pure none)
            (λ found w.
              IsFound w₀ found × (found ≡ with_id rt w₀.transactions id) × Progress w₀ seen tally w)
            (Checked w₀)
      search_by_id = elim (Bool-cases (truthy id)) [
        | inl given ↦ rw given (query (λ t. t.nomba_transaction_id == some (py_str rt id)))
        | inr lacking ↦ rw lacking (Safe-pure none (λ w h. (tt, refl, h)))
      ]

      search_by_ref :
          Safe
            (Progress w₀ seen tally)
            (if truthy ref then by_merchant_tx_ref memory rt ref else pure none)
            (λ found w.
              IsFound w₀ found
              × (found ≡ with_ref rt w₀.transactions ref)
              × Progress w₀ seen tally w)
            (Checked w₀)
      search_by_ref = elim (Bool-cases (truthy ref)) [
        | inl given ↦ rw given (query (λ t. t.merchant_tx_ref == some (py_str rt ref)))
        | inr lacking ↦ rw lacking (Safe-pure none (λ w h. (tt, refl, h)))
      ]

      go :
          (found : Option Transaction)
          → Safe
              (λ w.
                IsFound w₀ found
                × (found ≡ with_id rt w₀.transactions id)
                × Progress w₀ seen tally w)
              (or_by_ref memory rt ref found)
              (λ o w.
                IsFound w₀ o × (o ≡ local_of rt w₀.transactions id ref) × Progress w₀ seen tally w)
              (Checked w₀)
      go (some t) =
          Safe-pure (some t)
            (λ w (known, e, h). (known, ap (λ o. or_else o (with_ref rt w₀.transactions ref)) e, h))
      go none = record {
        at = λ w (known, e, h).
            (Safe-weaken _ search_by_ref
                (λ o v (k, f, g).
                  (k, f ∙ ap (λ x. or_else x (with_ref rt w₀.transactions ref)) e, g))
                (λ v k. k)).at
              w h;
      }
