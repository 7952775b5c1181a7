-- ===== src/Helpers/Funding.antt =====
-- The funding fields of a customer (app/services/helpers.py) against each other.
use ldb_backend_hack.Base.{
  pos, ◌+ℤ◌, ◌-ℤ◌, ◌≤ℤ◌, ◌<ℤ◌, ltb_ℤ, leb_ℤ, int_laws, ◌≡◌, ◌↔◌, refl, sym, ap, ◌∙◌, subst, String,
  true, false, Option, none, some, arith, if◌then◌else◌, inl, inr, Bool-cases, not, -ℤ_parts, ◌==◌,
  string_eq,
}
use mathlib.Core.Bool.{false≢true}
use mathlib.Core.Option.{some-injective}
use ldb_backend_hack.Model.{Customer, Decimal}
use ldb_backend_hack.Helpers.{
  customer_status, outstanding_balance, status_of_funding, outstanding_of_funding,
}

-- The smallest amount, not below 0, with which the balance reaches the target.
abbrev pub IsLeastDue : Decimal → Decimal → Decimal → Type 0
IsLeastDue target balance due =
    (pos 0 ≤ℤ due)
    × (target ≤ℤ balance +ℤ due)
    × ((d : Decimal) → pos 0 ≤ℤ d → target ≤ℤ balance +ℤ d → due ≤ℤ d)

due_of_short :
    (target balance : Decimal)
    → pos 0 <ℤ target -ℤ balance
    → IsLeastDue target balance (target -ℤ balance)
due_of_short target balance short = (omega arith, omega int_laws, λ d low reach. omega int_laws)

due_of_reached :
    (target balance : Decimal) → target -ℤ balance ≤ℤ pos 0 → IsLeastDue target balance (pos 0)
due_of_reached target balance reached = (omega arith, omega int_laws, λ d low reach. low)

outstanding_of_funding-IsLeastDue :
    (target balance : Decimal)
    → IsLeastDue target balance
        (if ltb_ℤ (pos 0) (target -ℤ balance) then target -ℤ balance else pos 0)
outstanding_of_funding-IsLeastDue target balance =
    elim (Bool-cases (ltb_ℤ (pos 0) (target -ℤ balance))) [
      | inl short ↦ rw short (due_of_short target balance (ground arith))
      | inr reached ↦ rw reached (due_of_reached target balance (ground arith))
    ]

-- For a customer with a target, the outstanding balance is the smallest amount, not below 0, with
-- which the wallet reaches the target.
pub outstanding_balance-IsLeastDue :
    (c : Customer) (target : Decimal)
    → c.target_amount ≡ some target
    → (due : Decimal) × (outstanding_balance c ≡ some due) × IsLeastDue target c.wallet_balance due
unfolding outstanding_balance outstanding_of_funding
outstanding_balance-IsLeastDue c target h =
    (_, rw h refl, outstanding_of_funding-IsLeastDue target c.wallet_balance)

abbrev normal : String
normal = "Normal"

normal_ne_underpayment : normal ≡ "Underpayment" → ⊥
unfolding string_eq
normal_ne_underpayment e = false≢true (ap (λ s. s == "Underpayment") e)

-- Something is outstanding exactly if the target is not reached.
ltb_gap :
    (target balance : Decimal) → ltb_ℤ (pos 0) (target -ℤ balance) ≡ not (leb_ℤ target balance)
ltb_gap target balance = elim (Bool-cases (leb_ℤ target balance)) [
  | inl reached ↦ rw reached (ltb_gap_of_reached target balance (ground arith))
  | inr short ↦ rw short (ltb_gap_of_short target balance (ground arith))
]
  where
    ltb_gap_of_reached :
        (target balance : Decimal) → target ≤ℤ balance → ltb_ℤ (pos 0) (target -ℤ balance) ≡ false
    ltb_gap_of_reached target balance h = let parts = -ℤ_parts target balance in ground arith

    ltb_gap_of_short :
        (target balance : Decimal) → balance <ℤ target → ltb_ℤ (pos 0) (target -ℤ balance) ≡ true
    ltb_gap_of_short target balance h = let parts = -ℤ_parts target balance in ground arith

below_zero : pos 0 <ℤ pos 0 → ⊥
below_zero h = omega arith

-- What "Underpayment" says.
abbrev pub IsUnderpaid : Decimal → Option Decimal → Type 0
IsUnderpaid balance outstanding =
    (due : Decimal) × (outstanding ≡ some due) × (pos 0 <ℤ due) × (pos 0 <ℤ balance)

IsUnderpaid-of_status :
    (target : Option Decimal) (balance : Decimal)
    → status_of_funding target balance ≡ "Underpayment"
    → IsUnderpaid balance (outstanding_of_funding target balance)
unfolding status_of_funding outstanding_of_funding
IsUnderpaid-of_status none balance e = absurd (normal_ne_underpayment e)
IsUnderpaid-of_status (some target) balance e = elim (Bool-cases (leb_ℤ target balance)) [
  | inl reached ↦ absurd (normal_ne_underpayment (rw reached at e))
  | inr short ↦ elim (Bool-cases (ltb_ℤ (pos 0) balance)) [
    | inl paid ↦
        let open_gap : ltb_ℤ (pos 0) (target -ℤ balance) ≡ true =
          ltb_gap target balance ∙ ap not short in
        (target -ℤ balance, rw open_gap refl, ground arith, ground arith)
    | inr nothing ↦ absurd (normal_ne_underpayment (rw (short, nothing) at e))
  ]
]

IsUnderpaid-status :
    (target : Option Decimal) (balance : Decimal)
    → IsUnderpaid balance (outstanding_of_funding target balance)
    → status_of_funding target balance ≡ "Underpayment"
unfolding status_of_funding outstanding_of_funding
IsUnderpaid-status none balance (due, e, gap, paid) = cc
IsUnderpaid-status (some target) balance (due, e, gap, paid) =
    elim (Bool-cases (leb_ℤ target balance)) [
      | inl reached ↦
          let no_gap : ltb_ℤ (pos 0) (target -ℤ balance) ≡ false =
            ltb_gap target balance ∙ ap not reached in
          let zero_due : pos 0 ≡ due = some-injective _ _ (rw no_gap at e) in
          absurd (below_zero (subst (λ d. pos 0 <ℤ d) (sym zero_due) gap))
      | inr short ↦ rw short (ground arith)
    ]

-- A customer is shown as underpaid exactly if there is a target, something has been paid, and an
-- amount above 0 is outstanding.
pub customer_status_lem :
    (c : Customer)
    → (customer_status c ≡ "Underpayment") ↔ IsUnderpaid c.wallet_balance (outstanding_balance c)
unfolding customer_status outstanding_balance
customer_status_lem c = (
  IsUnderpaid-of_status c.target_amount c.wallet_balance,
  IsUnderpaid-status c.target_amount c.wallet_balance,
)
