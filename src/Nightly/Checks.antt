-- ===== src/Nightly/Checks.antt =====
-- What a night's run leaves in the tables, however it ends.
use mathlib.Core.List.{map-append}
use ldb_backend_hack.Base.{
  ap₂, map, head?, select, ◌==◌, string_eq, option_eq, Option, ℕ, ◌+◌, String, ◌≡◌, refl, sym, ap,
  ◌∙◌, ◌||◌, none, some, List, [], ◌∷◌, ◌++◌, append-nil, append_assoc, length, length-append, All,
  All-append, Elem, arith, if◌then◌else◌,
}
use ldb_backend_hack.Json.{Json, or_json, object, Items, nil, cons, truthy}
use ldb_backend_hack.Model.{World, Transaction, ReconciliationLog, Uuid, Decimal}
use ldb_backend_hack.Constants.{reconciliation_safety_net_match}
use ldb_backend_hack.Runtime.{Runtime, py_str}
use ldb_backend_hack.Runtime.Dicts.{got}
use ldb_backend_hack.Nightly.{Tally}

-- The log says of a stored transaction that its amount was expected and received.
abbrev pub IsCheckOf : List Transaction → ReconciliationLog → Type 0
IsCheckOf transactions log =
    (t : Transaction) × Elem t transactions
    × (log.transaction_id ≡ t.id)
    × (log.expected_amount ≡ some t.amount)
    × (log.received_amount ≡ t.amount)
    × (log.decision ≡ reconciliation_safety_net_match)

-- The second state is the first with such logs added at the end of the audit table, and with some
-- random numbers drawn.
pub record Checked (w w' : World) : Type 0 where
  pub logs : List ReconciliationLog
  pub ticks : ℕ
  pub state : w' ≡ record w { reconciliation_logs = w.reconciliation_logs ++ logs; ticks = ticks }
  pub checks : All (IsCheckOf w.transactions) logs

-- The first transaction with the id that Nomba gives, where it gives one, and else the first with the
-- reference, where it gives one.
abbrev pub with_id : Runtime → List Transaction → Json → Option Transaction
with_id rt transactions id =
    if truthy id
    then head? (select (λ t. t.nomba_transaction_id == some (py_str rt id)) transactions)
    else none

abbrev pub with_ref : Runtime → List Transaction → Json → Option Transaction
with_ref rt transactions ref =
    if truthy ref
    then head? (select (λ t. t.merchant_tx_ref == some (py_str rt ref)) transactions)
    else none

abbrev pub or_else : Option Transaction → Option Transaction → Option Transaction
or_else (some t) o = some t
or_else none o = o

abbrev pub local_of : Runtime → List Transaction → Json → Json → Option Transaction
local_of rt transactions id ref =
    or_else (with_id rt transactions id) (with_ref rt transactions ref)

-- What the search for an item should find: nothing is looked for without an id and a reference.
abbrev pub looks : Runtime → List Transaction → Json → Json → List (Option Transaction)
looks rt transactions id ref =
    if truthy id || truthy ref then local_of rt transactions id ref ∷ [] else []

-- The same for the items of a list, in order; items that are no dict are passed over.
abbrev pub found_in : Runtime → List Transaction → Items → List (Option Transaction)
found_in rt transactions nil = []
found_in rt transactions (cons (object fields) rest) =
    looks rt transactions (or_json (got "transactionId" fields) (got "id" fields))
      (got "merchantTxRef" fields)
    ++ found_in rt transactions rest
found_in rt transactions (cons item rest) = found_in rt transactions rest

-- What the logs should say, one for each transaction found.
abbrev pub Entry : Type 0
Entry = Uuid × Option Decimal × Decimal × String

abbrev pub entry_for : Transaction → Entry
entry_for t = (t.id, some t.amount, t.amount, reconciliation_safety_net_match)

abbrev pub entries_for : List (Option Transaction) → List Entry
entries_for [] = []
entries_for (none ∷ found) = entries_for found
entries_for (some t ∷ found) = entry_for t ∷ entries_for found

abbrev pub entry_in : ReconciliationLog → Entry
entry_in log = (log.transaction_id, log.expected_amount, log.received_amount, log.decision)

abbrev pub missed : List (Option Transaction) → ℕ
missed [] = 0
missed (none ∷ found) = missed found + 1
missed (some t ∷ found) = missed found

-- One log for each transaction that was found, in order, and the counts of what was found and what
-- was not.
abbrev pub Progress : World → List (Option Transaction) → Tally → World → Type 0
Progress w₀ found tally w =
    (c : Checked w₀ w) × (map entry_in c.logs ≡ entries_for found)
    × (tally.matched ≡ length (entries_for found))
    × (tally.missing ≡ missed found)

entries_for-append :
    (xs ys : List (Option Transaction)) → entries_for (xs ++ ys) ≡ entries_for xs ++ entries_for ys
entries_for-append [] ys = refl
entries_for-append (none ∷ xs) ys = entries_for-append xs ys
entries_for-append (some t ∷ xs) ys = ap (λ l. entry_for t ∷ l) (entries_for-append xs ys)

missed-append : (xs ys : List (Option Transaction)) → missed (xs ++ ys) ≡ missed xs + missed ys
missed-append [] ys = omega arith
missed-append (none ∷ xs) ys = omega (arith, missed-append xs ys)
missed-append (some t ∷ xs) ys = missed-append xs ys

module _ {w₀ w : World} where
  retick : (n : ℕ) → Checked w₀ w → Checked w₀ (record w { ticks = n })
  retick n c = record {
    logs = c.logs;
    ticks = n;
    state = ap (λ (v : World). record v { ticks = n }) c.state;
    checks = c.checks;
  }

  add_log :
      (log : ReconciliationLog)
      → IsCheckOf w₀.transactions log
      → Checked w₀ w
      → Checked w₀ (record w { reconciliation_logs = w.reconciliation_logs ++ log ∷ [] })
  add_log log check c = record {
    logs = c.logs ++ log ∷ [];
    ticks = c.ticks;
    state =
        ap (λ (v : World). record v { reconciliation_logs = v.reconciliation_logs ++ log ∷ [] })
          c.state
        ∙ ap (λ rows. record w₀ { reconciliation_logs = rows; ticks = c.ticks })
            (append_assoc w₀.reconciliation_logs c.logs (log ∷ []));
    checks = All-append (IsCheckOf w₀.transactions) c.logs (log ∷ []) c.checks (check, tt);
  }

pub Checked_refl : (w : World) → Checked w w
Checked_refl w = record {
  logs = [];
  ticks = w.ticks;
  state =
      ap (λ rows. record w { reconciliation_logs = rows }) (sym (append-nil w.reconciliation_logs));
  checks = tt;
}

module _ {w₀ w : World} (found : List (Option Transaction)) (tally : Tally) where
  pub Progress-retick :
      (n : ℕ) → Progress w₀ found tally w → Progress w₀ found tally (record w { ticks = n })
  unfolding retick
  Progress-retick n (c, told, hits, misses) = (retick n c, told, hits, misses)

  pub Progress-add :
      (log : ReconciliationLog) (t : Transaction)
      → IsCheckOf w₀.transactions log
      → entry_in log ≡ entry_for t
      → Progress w₀ found tally w
      → Progress w₀
          (found ++ some t ∷ [])
          (record tally { matched = tally.matched + 1 })
          (record w { reconciliation_logs = w.reconciliation_logs ++ log ∷ [] })
  unfolding add_log
  Progress-add log t check says (c, told, hits, misses) = (
    add_log log check c,
    map-append entry_in c.logs (log ∷ [])
        ∙ ap₂ (λ xs ys. xs ++ ys) told (ap (λ e. e ∷ []) says)
        ∙ sym (entries_for-append found (some t ∷ [])),
    rw (entries_for-append found (some t ∷ []))
        (omega (arith, hits, length-append (entries_for found) (entry_for t ∷ []))),
    omega (arith, misses, missed-append found (some t ∷ [])),
  )

  pub Progress-miss :
      Progress w₀ found tally w
      → Progress w₀ (found ++ none ∷ []) (record tally { missing = tally.missing + 1 }) w
  Progress-miss (c, told, hits, misses) = (
    c,
    told ∙ sym (entries_for-append found (none ∷ []) ∙ append-nil (entries_for found)),
    rw (entries_for-append found (none ∷ []), append-nil (entries_for found)) hits,
    omega (arith, misses, missed-append found (none ∷ [])),
  )

pub Progress-start : (w : World) → Progress w [] (record { matched = 0; missing = 0 }) w
unfolding Checked_refl
Progress-start w = (Checked_refl w, refl, refl, refl)
