-- ===== src/Nightly/Run.antt =====
-- A night's run of app/jobs/nightly_reconciliation.py, from Nomba's answer on.
use ldb_backend_hack.Base.{[], ◌≡◌, refl, sym, ap, subst, string_eq, option_eq, Option, none, some}
use ldb_backend_hack.Json.{Json, null, bool, number, text, array, object, nil, or_json}
use ldb_backend_hack.Model.{World}
use ldb_backend_hack.Action.{Result, ok, raised, pure, ◌>>=◌}
use ldb_backend_hack.Action.Safe.{Safe, Ends, Safe-bind, Safe-pure, Safe-from}
use ldb_backend_hack.Orm.{Orm, IsLawful}
use ldb_backend_hack.Orm.Memory.{memory, lawful-eq-memory}
use ldb_backend_hack.Runtime.{Runtime, get_default}
use ldb_backend_hack.Nomba.{
  Answer, responded, status_error, http_error, broken, list_nomba_transactions,
}
use ldb_backend_hack.Ledger.{Unchanged}
use ldb_backend_hack.Nightly.{Tally, items_of, check_all, after_fetch, run_nightly_reconciliation}
use ldb_backend_hack.Nightly.Checks.{Checked, Progress, found_in, Progress-start, Checked_refl}
use ldb_backend_hack.Runtime.Dicts.{got, data_in, get_default_lem, get_data}
use ldb_backend_hack.Nightly.Walk.{check_items-Safe}

-- What the job answers for Nomba's list: anything else is skipped, with nothing changed.
abbrev pub Answered : Runtime → World → Json → Option Tally → World → Type 0
Answered rt w₀ (array items) none w = ⊥
Answered rt w₀ (array items) (some tally) w =
    Progress w₀ (found_in rt w₀.transactions items) tally w
Answered rt w₀ j none w = w ≡ w₀
Answered rt w₀ j (some tally) w = ⊥

-- The list in the data of Nomba's answer, and null where there is no data.
abbrev in_dict : Json → Json
in_dict (object fields) = or_json (or_json (got "results" fields) (got "items" fields)) (array nil)
in_dict j = j

abbrev pub listed : Answer → Json
listed (responded code (object fields)) = in_dict (data_in fields)
listed answer = null

module _ (rt : Runtime) {w₀ : World} where
  check_all-Safe :
      (j : Json) → Safe (λ w. w ≡ w₀) (check_all memory rt j) (Answered rt w₀ j) (Checked w₀)
  unfolding check_all
  check_all-Safe (array items) =
      Safe-bind _ _
        (Safe-from _ (check_items-Safe rt [] (record { matched = 0; missing = 0 }) items) (λ w e.
          subst (Progress w₀ [] (record { matched = 0; missing = 0 })) (sym e) (Progress-start w₀)))
        (λ tally. Safe-pure (some tally) (λ w h. h))
  check_all-Safe null = Safe-pure none (λ w h. h)
  check_all-Safe (bool b) = Safe-pure none (λ w h. h)
  check_all-Safe (number n) = Safe-pure none (λ w h. h)
  check_all-Safe (text s) = Safe-pure none (λ w h. h)
  check_all-Safe (object fields) = Safe-pure none (λ w h. h)

items_of_lem : (j : Json) → items_of j ≡ pure (in_dict j)
unfolding items_of ◌>>=◌
items_of_lem (object fields) =
    rw (get_default_lem "results" fields, get_default_lem "items" fields) refl
items_of_lem null = refl
items_of_lem (bool b) = refl
items_of_lem (number n) = refl
items_of_lem (text s) = refl
items_of_lem (array items) = refl

module _ (rt : Runtime) (w : World) where
  abbrev Night : Answer → Type 0
  Night answer =
      Ends (Answered rt w (listed answer)) (Checked w)
        (run_nightly_reconciliation memory rt answer w)

  run_memory : (answer : Answer) → Night answer
  unfolding run_nightly_reconciliation list_nomba_transactions after_fetch ◌>>=◌ get_default
  run_memory (responded code (object fields)) =
      rw (get_data fields, items_of_lem (data_in fields))
        ((check_all-Safe rt (in_dict (data_in fields))).at w refl)
  run_memory (responded code null) = Checked_refl w
  run_memory (responded code (bool b)) = Checked_refl w
  run_memory (responded code (number n)) = Checked_refl w
  run_memory (responded code (text s)) = Checked_refl w
  run_memory (responded code (array items)) = Checked_refl w
  run_memory (status_error code message) = refl
  run_memory (http_error message) = refl
  run_memory (broken e) = Checked_refl w

Checked-Unchanged : {w w' : World} → Checked w w' → Unchanged w w'
Checked-Unchanged c = record {
  customers = ap (λ (v : World). v.customers) c.state;
  accounts = ap (λ (v : World). v.accounts) c.state;
  transactions = ap (λ (v : World). v.transactions) c.state;
}

Answered-Checked :
    (rt : Runtime) (w v : World) (j : Json) (o : Option Tally) → Answered rt w j o v → Checked w v
Answered-Checked rt w v (array items) none h = elim h [ ]
Answered-Checked rt w v (array items) (some tally) h = h.0
Answered-Checked rt w v null none h = subst (Checked w) (sym h) (Checked_refl w)
Answered-Checked rt w v (bool b) none h = subst (Checked w) (sym h) (Checked_refl w)
Answered-Checked rt w v (number n) none h = subst (Checked w) (sym h) (Checked_refl w)
Answered-Checked rt w v (text s) none h = subst (Checked w) (sym h) (Checked_refl w)
Answered-Checked rt w v (object fields) none h = subst (Checked w) (sym h) (Checked_refl w)
Answered-Checked rt w v null (some tally) h = elim h [ ]
Answered-Checked rt w v (bool b) (some tally) h = elim h [ ]
Answered-Checked rt w v (number n) (some tally) h = elim h [ ]
Answered-Checked rt w v (text s) (some tally) h = elim h [ ]
Answered-Checked rt w v (object fields) (some tally) h = elim h [ ]

module _ (rt : Runtime) (answer : Answer) (w : World) where
  pub run_nightly_reconciliation-Checked :
      Checked w (run_nightly_reconciliation memory rt answer w).1
  run_nightly_reconciliation-Checked =
      go (run_nightly_reconciliation memory rt answer w).0
        (run_nightly_reconciliation memory rt answer w).1 (run_memory rt w answer)
    where
      go :
          (r : Result (Option Tally)) (v : World)
          → Ends (Answered rt w (listed answer)) (Checked w) (r, v)
          → Checked w v
      go (ok o) v h = Answered-Checked rt w v (listed answer) o h
      go (raised e) v h = h

  pub run_nightly_reconciliation-Unchanged :
      Unchanged w (run_nightly_reconciliation memory rt answer w).1
  run_nightly_reconciliation-Unchanged = Checked-Unchanged run_nightly_reconciliation-Checked

-- Over any lawful ORM, a night's run that answers has skipped the job, with nothing changed, or Nomba
-- sent a list: then for each item with an id or a reference, in order, the stored transaction with
-- that id, or else the one with that reference, counts as matched, and the audit table has grown by
-- one log for it, which copies its id and amount; where there is none the item counts as missing;
-- no other table has changed. A run that raises has added such logs of stored transactions at most.
pub run_nightly_reconciliation_lem :
    (orm : Orm) (laws : IsLawful orm) (rt : Runtime) (answer : Answer) (w : World)
    → Ends (Answered rt w (listed answer)) (Checked w) (run_nightly_reconciliation orm rt answer w)
run_nightly_reconciliation_lem orm laws rt answer w =
    rw (lawful-eq-memory orm laws) (run_memory rt w answer)
