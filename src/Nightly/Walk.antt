-- ===== src/Nightly/Walk.antt =====
-- The loop of the nightly job, from item to item.
use ldb_backend_hack.Base.{
  true, false, List, [], ◌∷◌, ◌++◌, append-nil, append_assoc, ◌+◌, ◌≡◌, refl, subst, string_eq,
  option_eq, ◌&&◌, ◌||◌, not, Option, none, some, any, Bool-cases, inl, inr, arith, if◌then◌else◌,
}
use ldb_backend_hack.Json.{
  Json, null, bool, number, text, array, object, Items, nil, cons, Fields, truthy, or_json,
}
use ldb_backend_hack.Model.{World, Transaction, ReconciliationLog, reconciliation_conflict}
use ldb_backend_hack.Action.{pure, ◌>>=◌}
use ldb_backend_hack.Action.Safe.{Safe, Ends, Safe-bind, Safe-pure, Safe-weaken, Safe-from}
use ldb_backend_hack.Orm.Memory.{memory}
use ldb_backend_hack.Runtime.{Runtime, uuid4, clock}
use ldb_backend_hack.Tables.{create_reconciliation_log}
use ldb_backend_hack.Tables.Memory.{create_reconciliation_log_new, create_reconciliation_log_taken}
use ldb_backend_hack.Runtime.Dicts.{got}
use ldb_backend_hack.Nightly.{Tally, find_local, note_item, check_dict, check_item, check_items}
use ldb_backend_hack.Nightly.Checks.{
  IsCheckOf, Checked, Progress, local_of, looks, found_in, entry_for, entry_in, Progress-retick,
  Progress-add, Progress-miss,
}
use ldb_backend_hack.Nightly.Search.{IsFound, Safe-get, find_local-Safe}

module _ (rt : Runtime) {w₀ : World} (seen : List (Option Transaction)) (tally : Tally) where
  store_log :
      (log : ReconciliationLog) (t : Transaction)
      → entry_in log ≡ entry_for t
      → Safe
          (λ w. IsCheckOf w₀.transactions log × Progress w₀ seen tally w)
          (create_reconciliation_log memory log)
          (λ _. Progress w₀ (seen ++ some t ∷ []) (record tally { matched = tally.matched + 1 }))
          (Checked w₀)
  store_log log t says = record {
    at = λ w h. elim (Bool-cases (any (reconciliation_conflict log) w.reconciliation_logs)) [
      | inl taken ↦ rw (create_reconciliation_log_taken log w taken) h.1.0
      | inr free ↦
          rw (create_reconciliation_log_new log w free) (Progress-add seen tally log t h.0 says h.1)
    ];
  }

  note_item-Safe :
      (id : Json) (found : Option Transaction)
      → Safe
          (λ w. IsFound w₀ found × Progress w₀ seen tally w)
          (note_item memory rt id tally found)
          (Progress w₀ (seen ++ found ∷ []))
          (Checked w₀)
  unfolding note_item uuid4 clock
  note_item-Safe id none = Safe-pure _ (λ w h. Progress-miss seen tally h.1)
  note_item-Safe id (some t) = Safe-bind _ _ draw (λ log_id. Safe-bind _ _ tell (λ time.
      Safe-bind _ _
        (Safe-from _ (store_log _ t refl) (λ w h. ((t, h.0, refl, refl, refl, refl), h.1)))
        (λ _. Safe-pure _ (λ w h. h))))
    where
      draw :
          Safe
            (λ w. IsFound w₀ (some t) × Progress w₀ seen tally w)
            (uuid4 rt)
            (λ _ w. IsFound w₀ (some t) × Progress w₀ seen tally w)
            (Checked w₀)
      draw = record { at = λ w h. (h.0, Progress-retick seen tally (w.ticks + 1) h.1) }

      tell :
          Safe
            (λ w. IsFound w₀ (some t) × Progress w₀ seen tally w)
            (clock rt)
            (λ _ w. IsFound w₀ (some t) × Progress w₀ seen tally w)
            (Checked w₀)
      tell = record { at = λ w h. h }

-- What the search for a dict should find.
abbrev item_found : Runtime → World → Fields → List (Option Transaction)
item_found rt w₀ fields =
    looks rt w₀.transactions (or_json (got "transactionId" fields) (got "id" fields))
      (got "merchantTxRef" fields)

module _ (rt : Runtime) {w₀ : World} where
  look_up-Safe :
      (seen : List (Option Transaction)) (tally : Tally) (id ref : Json)
      → Safe
          (Progress w₀ seen tally)
          (if not (truthy id) && not (truthy ref)
            then pure tally
            else find_local memory rt id ref >>= note_item memory rt id tally)
          (Progress w₀ (seen ++ looks rt w₀.transactions id ref))
          (Checked w₀)
  look_up-Safe seen tally id ref =
      let found : Safe (Progress w₀ seen tally)
          (find_local memory rt id ref >>= note_item memory rt id tally)
          (Progress w₀ (seen ++ local_of rt w₀.transactions id ref ∷ [])) (Checked w₀) =
        Safe-bind _ _ (find_local-Safe rt seen tally id ref) (λ o. record {
          at = λ w (known, same, h).
              subst
                (λ x.
                  Ends (Progress w₀ (seen ++ x ∷ [])) (Checked w₀)
                    (note_item memory rt id tally o w))
                same ((note_item-Safe rt seen tally id o).at w (known, h));
        }) in
      elim (Bool-cases (truthy id || truthy ref)) [
        | inl given ↦
            let go : not (truthy id) && not (truthy ref) ≡ false = ground arith in
            rw (go, given) found
        | inr lacking ↦
            let go : not (truthy id) && not (truthy ref) ≡ true = ground arith in
            rw (go, lacking, append-nil seen) (Safe-pure tally (λ w h. h))
      ]

  check_dict-Safe :
      (seen : List (Option Transaction)) (tally : Tally) (fields : Fields)
      → Safe
          (Progress w₀ seen tally)
          (check_dict memory rt (object fields) tally)
          (Progress w₀ (
            seen
            ++ looks rt w₀.transactions
                (or_json (got "transactionId" fields) (got "id" fields))
                (got "merchantTxRef" fields)))
          (Checked w₀)
  unfolding check_dict
  check_dict-Safe seen tally fields =
      Safe-get "transactionId" fields _
        (Safe-get "id" fields _ (Safe-get "merchantTxRef" fields _ (look_up-Safe seen tally _ _)))

  pub check_items-Safe :
      (seen : List (Option Transaction)) (tally : Tally) (items : Items)
      → Safe
          (Progress w₀ seen tally)
          (check_items memory rt items tally)
          (Progress w₀ (seen ++ found_in rt w₀.transactions items))
          (Checked w₀)
  unfolding check_items check_item
  check_items-Safe seen tally nil = rw (append-nil seen) (Safe-pure tally (λ w h. h))
  check_items-Safe seen tally (cons (object fields) rest) =
      Safe-bind _ _ (check_dict-Safe seen tally fields) (λ t.
        Safe-weaken _ (check_items-Safe (seen ++ item_found rt w₀ fields) t rest)
          (λ t' w h.
            subst (λ found. Progress w₀ found t' w) (append_assoc seen (item_found rt w₀ fields) _)
              h)
          (λ w h. h))
  check_items-Safe seen tally (cons null rest) =
      Safe-bind _ _ (Safe-pure tally (λ w h. h)) (λ t. check_items-Safe seen t rest)
  check_items-Safe seen tally (cons (bool b) rest) =
      Safe-bind _ _ (Safe-pure tally (λ w h. h)) (λ t. check_items-Safe seen t rest)
  check_items-Safe seen tally (cons (number n) rest) =
      Safe-bind _ _ (Safe-pure tally (λ w h. h)) (λ t. check_items-Safe seen t rest)
  check_items-Safe seen tally (cons (text s) rest) =
      Safe-bind _ _ (Safe-pure tally (λ w h. h)) (λ t. check_items-Safe seen t rest)
  check_items-Safe seen tally (cons (array items) rest) =
      Safe-bind _ _ (Safe-pure tally (λ w h. h)) (λ t. check_items-Safe seen t rest)
