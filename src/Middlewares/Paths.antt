-- ===== src/Middlewares/Paths.antt =====
-- The paths by which requests are counted.
use Prim.Native.Char.{Char}
use ldb_backend_hack.Base.{
  nat_eq, String, Bool, true, false, ◌&&◌, ◌||◌, ◌≡◌, refl, ◌∙◌, Bool-cases, inl, inr, arith,
}
use ldb_backend_hack.Middlewares.{
  next_char, is_slash, starts_decimal, sub_numbers, sub_ids, normalize_path,
}

-- Whether a segment of the path starts with a decimal digit.
abbrev pub has_number : (Char → Bool) → String → Bool
has_number is_decimal String.[] = false
has_number is_decimal (String.◌∷◌ c s) =
    (is_slash c && starts_decimal is_decimal s) || has_number is_decimal s

module _ (is_decimal : Char → Bool) (slash : is_decimal "/" ≡ false)
    (colon : is_decimal ":" ≡ false) where
  starts_decimal-sub_numbers :
      (s : String)
      → starts_decimal is_decimal s ≡ false
      → starts_decimal is_decimal (sub_numbers is_decimal false s) ≡ false
  unfolding sub_numbers
  starts_decimal-sub_numbers String.[] h = h
  starts_decimal-sub_numbers (String.◌∷◌ c s) h =
      elim (Bool-cases (is_slash c && starts_decimal is_decimal s)) [
        | inl hit ↦ rw hit slash
        | inr miss ↦ rw miss h
      ]

  num_has_none :
      (s : String)
      → has_number is_decimal (next_char false true ":" (λ d. s)) ≡ has_number is_decimal s
  unfolding nat_eq
  num_has_none s = rw colon refl

  has_number-sub_numbers :
      (dropping : Bool) (s : String)
      → has_number is_decimal (sub_numbers is_decimal dropping s) ≡ false
  unfolding sub_numbers
  has_number-sub_numbers dropping String.[] = refl
  has_number-sub_numbers dropping (String.◌∷◌ c s) =
      let dropped = has_number-sub_numbers true s in
      let kept = has_number-sub_numbers false s in
      elim (Bool-cases (dropping && is_decimal c)) [
        | inl drop ↦ rw drop dropped
        | inr plain ↦ elim (Bool-cases (is_slash c && starts_decimal is_decimal s)) [
          | inl hit ↦ rw (plain, hit) (num_has_none (sub_numbers is_decimal true s) ∙ dropped)
          | inr miss ↦
              rw (plain, miss)
                (elim (Bool-cases (starts_decimal is_decimal s)) [
                  | inl digit ↦ ground arith
                  | inr none_left ↦ rw (starts_decimal-sub_numbers s none_left, kept) (ground arith)
                ])
        ]
      ]

-- Where neither a slash nor a colon counts as a decimal digit, the path under which the metrics
-- count a request, whatever the path of the request is, has no segment that starts with a decimal
-- digit.
pub has_number-normalize_path :
    (is_decimal : Char → Bool)
    → is_decimal "/" ≡ false
    → is_decimal ":" ≡ false
    → (path : String) → has_number is_decimal (normalize_path is_decimal path) ≡ false
unfolding normalize_path
has_number-normalize_path is_decimal slash colon path =
    has_number-sub_numbers is_decimal slash colon false (sub_ids 0 path)
