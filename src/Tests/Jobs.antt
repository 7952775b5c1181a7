-- ===== src/Tests/Jobs.antt =====
-- A night's run on the sample.
use ldb_backend_hack.Base.{string_eq, some, [], ◌∷◌}
use ldb_backend_hack.Json.{text, array, object, nil, cons, end, field}
use ldb_backend_hack.Model.{World, Transaction}
use ldb_backend_hack.Action.Safe.{Ends}
use ldb_backend_hack.Orm.Memory.{memory, memory-IsLawful}
use ldb_backend_hack.Nomba.{Answer, responded}
use ldb_backend_hack.Nightly.{run_nightly_reconciliation}
use ldb_backend_hack.Nightly.Checks.{Checked}
use ldb_backend_hack.Nightly.Run.{Answered, listed, run_nightly_reconciliation_lem}
use ldb_backend_hack.Tests.{sample_runtime, paid, paid_world}

abbrev told : Transaction
told = record paid { nomba_transaction_id = some "T-1" }

abbrev told_world : World
told_world = record paid_world { transactions = told ∷ [] }

-- One item that the ledger has, one that it has not, and one that is no dict.
abbrev sample_list : Answer
sample_list = responded 200 (
    object (
      field "data"
        (object (
          field "results"
            (array (
              cons (object (field "transactionId" (text "T-1") end))
                (cons (object (field "id" (text "T-2") end)) (cons (text "odd") nil))))
            end))
        end))

run_nightly_reconciliation_lem_example :
    Ends
      (Answered sample_runtime told_world (listed sample_list))
      (Checked told_world)
      (run_nightly_reconciliation memory sample_runtime sample_list told_world)
run_nightly_reconciliation_lem_example =
    run_nightly_reconciliation_lem memory memory-IsLawful sample_runtime sample_list told_world
