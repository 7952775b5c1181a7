-- ===== src/Ledger/Keeps.antt =====
-- Actions that leave the ledger alone, one rule for each way to build an action.
use ldb_backend_hack.Base.{refl, ◌∙◌, Bool, true, false, if◌then◌else◌}
use ldb_backend_hack.Model.{World}
use ldb_backend_hack.Action.{Exception, Result, ok, raised, Action, pure, raise, lift, ask, ◌>>=◌}
use ldb_backend_hack.Action.Reads.{Reads}
use ldb_backend_hack.Ledger.{Unchanged}

pub Unchanged-refl : (w : World) → Unchanged w w
Unchanged-refl w = record { customers = refl; accounts = refl; transactions = refl }

pub Unchanged-trans : {a b c : World} → Unchanged a b → Unchanged b c → Unchanged a c
Unchanged-trans h k = record {
  customers = k.customers ∙ h.customers;
  accounts = k.accounts ∙ h.accounts;
  transactions = k.transactions ∙ h.transactions;
}

-- Whether `m` returns or raises.
pub record KeepsLedger {A : Type 0} (m : Action A) : Type 0 where
  pub at : (w : World) → Unchanged w (m w).1

module _ {A : Type 0} where
  pub KeepsLedger-pure : (a : A) → KeepsLedger (pure a)
  unfolding pure
  KeepsLedger-pure a = record { at = Unchanged-refl }

  pub KeepsLedger-raise : (e : Exception) → KeepsLedger (raise {A = A} e)
  unfolding raise
  KeepsLedger-raise e = record { at = Unchanged-refl }

  pub KeepsLedger-lift : (r : Result A) → KeepsLedger (lift r)
  unfolding lift
  KeepsLedger-lift r = record { at = Unchanged-refl }

  pub KeepsLedger-ask : (q : World → Result A) → KeepsLedger (ask q)
  unfolding ask
  KeepsLedger-ask q = record { at = Unchanged-refl }

  pub KeepsLedger-if :
      (b : Bool) (m n : Action A) → KeepsLedger m → KeepsLedger n → KeepsLedger (if b then m else n)
  KeepsLedger-if true m n km kn = km
  KeepsLedger-if false m n km kn = kn

  pub KeepsLedger-Reads : {Q : A → Type 0} {m : Action A} → Reads Q m → KeepsLedger m
  KeepsLedger-Reads {m} r = record {
    at = λ w.
        let same = (r.at w).0 in
        record {
          customers = λ i. (same i).customers;
          accounts = λ i. (same i).accounts;
          transactions = λ i. (same i).transactions;
        };
  }

module _ {A B : Type 0} where
  continue-Unchanged :
      (r : Result A) (f : A → Action B) (w : World)
      → ((a : A) → KeepsLedger (f a))
      → Unchanged w ((lift r >>= f) w).1
  unfolding ◌>>=◌
  continue-Unchanged (ok a) f w kf = (kf a).at w
  continue-Unchanged (raised e) f w kf = Unchanged-refl w

  pub KeepsLedger-bind :
      (m : Action A) (f : A → Action B)
      → KeepsLedger m
      → ((a : A) → KeepsLedger (f a))
      → KeepsLedger (m >>= f)
  unfolding ◌>>=◌
  KeepsLedger-bind m f km kf = record {
    at = λ w. Unchanged-trans (km.at w) (continue-Unchanged (m w).0 f (m w).1 kf);
  }

pub ruleset keeps_rules = (
  KeepsLedger-pure, KeepsLedger-raise, KeepsLedger-lift, KeepsLedger-ask, KeepsLedger-if,
  KeepsLedger-bind,
)
