-- ===== src/Helpers/Status.antt =====
-- `derive_transaction_status` against a description of the four statuses.
use ldb_backend_hack.Base.{
  pos, ◌≤ℤ◌, ◌<ℤ◌, ltb_ℤ, leb_ℤ, eq_of_parts, ◌≡◌, ◌↔◌, refl, subst, Option, none, some, arith, inl,
  inr, Bool-cases,
}
use ldb_backend_hack.Model.{Decimal, TransactionStatus, full, partial, overpayment, misdirected}
use ldb_backend_hack.Helpers.{derive_transaction_status}

-- What each status says about the payment and the target of its customer.
abbrev pub Describes : TransactionStatus → Decimal → Option Decimal → Type 0
Describes full received none = Unit
Describes full received (some target) = received ≡ target
Describes partial received none = ⊥
Describes partial received (some target) = (pos 0 <ℤ received) × (received <ℤ target)
Describes overpayment received none = ⊥
Describes overpayment received (some target) = target <ℤ received
Describes misdirected received none = ⊥
Describes misdirected received (some target) = (received ≤ℤ pos 0) × (received <ℤ target)

derived-Describes :
    (received : Decimal) (target : Option Decimal)
    → Describes (derive_transaction_status received target) received target
unfolding derive_transaction_status
derived-Describes received none = tt
derived-Describes received (some target) = elim (Bool-cases (leb_ℤ target received)) [
  | inl reached ↦ rw reached (elim (Bool-cases (ltb_ℤ target received)) [
    | inl above ↦ rw above (ground arith)
    | inr exact ↦ rw exact (eq_of_parts received target (ground arith))
  ])
  | inr short ↦ rw short (elim (Bool-cases (ltb_ℤ (pos 0) received)) [
    | inl some_paid ↦ rw some_paid (ground arith)
    | inr nothing ↦ rw nothing (ground arith)
  ])
]

Describes-derived :
    (received : Decimal) (target : Option Decimal) (s : TransactionStatus)
    → Describes s received target
    → derive_transaction_status received target ≡ s
unfolding derive_transaction_status
Describes-derived received none full h = refl
Describes-derived received (some target) full h = rw h (ground arith)
Describes-derived received none partial h = absurd h
Describes-derived received (some target) partial h = ground arith
Describes-derived received none overpayment h = absurd h
Describes-derived received (some target) overpayment h = ground arith
Describes-derived received none misdirected h = absurd h
Describes-derived received (some target) misdirected h = ground arith

-- The status that is derived is the one status that describes the payment: without a target it
-- is full; with one it is full for the target itself, an overpayment for more, partial for less
-- but more than 0, and misdirected for the rest.
pub derive_transaction_status_lem :
    (received : Decimal) (target : Option Decimal) (s : TransactionStatus)
    → (derive_transaction_status received target ≡ s) ↔ Describes s received target
derive_transaction_status_lem received target s = (
  λ e. subst (λ x. Describes x received target) e (derived-Describes received target),
  Describes-derived received target s,
)
