-- ===== src/Reconciliation/Search.antt =====
-- `_find_account` against the table of accounts.
use ldb_backend_hack.Base.{
  ◌≡◌, refl, sym, subst, ◌∙◌, ap, ◌==◌, nat_eq, string_eq, String, Bool, Option, none, some, Elem,
  Bool-cases, inl, inr, arith,
}
use ldb_backend_hack.Json.{Json, truthy}
use ldb_backend_hack.Model.{World, DedicatedAccount, account_status_eq}
use ldb_backend_hack.Action.{Exception, Result, ok, raised, ask, pure}
use ldb_backend_hack.Action.Steps.{bind_elim, ask_ok, ask_raised}
use ldb_backend_hack.Orm.Memory.{memory, at_most_one-select}
use ldb_backend_hack.Runtime.{Runtime, py_str}
use ldb_backend_hack.Reconciliation.{
  get_by_ref, get_by_number, find_by_ref, after_number, find_account,
}

-- A search that changes nothing, and whose find is in the table.
abbrev pub IsSearch : World → Result (Option DedicatedAccount) × World → Type 0
IsSearch w (r, w') = (w' ≡ w) × ((a : DedicatedAccount) → r ≡ ok (some a) → Elem a w.accounts)

raised-IsSearch : (w w' : World) (e : Exception) → w' ≡ w → IsSearch w (raised e, w')
raised-IsSearch w w' e same = (same, λ a q. cc)

module _ (rt : Runtime) (ref : Json) (w : World) where
  after_number-IsSearch :
      (o : Option DedicatedAccount)
      → ((a : DedicatedAccount) → o ≡ some a → Elem a w.accounts)
      → IsSearch w (after_number memory rt ref o w)
  unfolding after_number find_by_ref get_by_ref ask pure
  after_number-IsSearch (some b) known = (refl, λ a e. known a (ground arith))
  after_number-IsSearch none known = elim (Bool-cases (truthy ref)) [
    | inl given ↦ rw given (
      refl,
      λ a e.
          (at_most_one-select (λ (a : DedicatedAccount). a.account_ref == py_str rt ref) w.accounts
            e).0,
    )
    | inr missing ↦ rw missing (refl, λ a e. absurd (ground arith))
  ]

  pub find_account-IsSearch :
      (account_number : String) → IsSearch w (find_account memory rt account_number ref w)
  unfolding find_account get_by_number find_by_ref after_number
  find_account-IsSearch account_number = elim (Bool-cases (account_number == "")) [
    | inl missing ↦ rw missing (after_number-IsSearch none (λ a e. absurd (ground arith)))
    | inr given ↦
        let matches : DedicatedAccount → Bool = λ a. a.account_number == account_number in
        rw given (
          bind_elim (get_by_number memory account_number) (after_number memory rt ref) w
            (IsSearch w)
            (λ o w' e.
              let found = ask_ok _ w w' e in
              subst (λ v. IsSearch w (after_number memory rt ref o v)) (sym found.0)
                (after_number-IsSearch o
                  (λ a q. (at_most_one-select matches w.accounts (found.1 ∙ ap ok q)).0)))
            (λ x w' e. raised-IsSearch w w' x (ask_raised _ w w' e)))
  ]
