-- ===== src/Orm.antt =====
-- What the services use of Tortoise ORM, which is not part of the repository. A table is the list
-- of its rows in the order of creation, and a query is given as a test on rows.
pub mod Memory
use ldb_backend_hack.Base.{
  ℕ, Bool, true, false, ◌≡◌, Option, none, some, List, [], ◌∷◌, ◌++◌, select, any, head?, replace,
  take, drop, length, not, if◌then◌else◌,
}
use ldb_backend_hack.Action.{
  Result, ok, raised, integrity_error, multiple_objects_returned, does_not_exist,
}

pub record Orm : Type 1 where
  -- `Model.get_or_none(...)`
  pub get_or_none : (Row : Type 0) → (Row → Bool) → List Row → Result (Option Row)
  -- `Model.filter(...)`, awaited
  pub filter : (Row : Type 0) → (Row → Bool) → List Row → List Row
  -- `Model.filter(...).first()`
  pub first : (Row : Type 0) → (Row → Bool) → List Row → Option Row
  -- `Model.filter(...).exists()`
  pub exists : (Row : Type 0) → (Row → Bool) → List Row → Bool
  -- `row.fetch_related("...")` along a foreign key that is not null
  pub fetch_related : (Row : Type 0) → (Row → Bool) → List Row → Result Row
  -- `Model.create(...)`, given the test by which the constraints compare it with another row
  pub create : (Row : Type 0) → (Row → Row → Bool) → Row → List Row → Result (List Row)
  -- `row.save()`, given the test for rows with its primary key
  pub save : (Row : Type 0) → (Row → Bool) → Row → List Row → List Row
  -- The rows that the deletion of others leaves.
  pub delete : (Row : Type 0) → (Row → Bool) → List Row → List Row
  -- `query.offset(n).limit(m)`
  pub offset_limit : (Row : Type 0) → ℕ → ℕ → List Row → List Row

-- At most one row, or the error that there are several.
abbrev pub at_most_one : {Row : Type 0} → List Row → Result (Option Row)
at_most_one [] = ok none
at_most_one (r ∷ []) = ok (some r)
at_most_one (r ∷ s ∷ rest) = raised multiple_objects_returned

abbrev pub required : {Row : Type 0} → Option Row → Result Row
required none = raised does_not_exist
required (some r) = ok r

-- The documented behaviour that the services rely on.
pub record IsLawful (orm : Orm) : Type 1 where
  pub get_or_none_lem :
      (Row : Type 0) (p : Row → Bool) (rows : List Row)
      → orm.get_or_none Row p rows ≡ at_most_one (select p rows)
  pub filter_lem :
      (Row : Type 0) (p : Row → Bool) (rows : List Row) → orm.filter Row p rows ≡ select p rows
  pub first_lem :
      (Row : Type 0) (p : Row → Bool) (rows : List Row)
      → orm.first Row p rows ≡ head? (select p rows)
  pub exists_lem :
      (Row : Type 0) (p : Row → Bool) (rows : List Row) → orm.exists Row p rows ≡ any p rows
  pub fetch_related_lem :
      (Row : Type 0) (p : Row → Bool) (rows : List Row)
      → orm.fetch_related Row p rows ≡ required (head? (select p rows))
  pub create_lem :
      (Row : Type 0) (conflict : Row → Row → Bool) (row : Row) (rows : List Row)
      → orm.create Row conflict row rows
        ≡ (if any (conflict row) rows then raised integrity_error else ok (rows ++ row ∷ []))
  pub save_lem :
      (Row : Type 0) (same : Row → Bool) (row : Row) (rows : List Row)
      → orm.save Row same row rows ≡ replace same row rows
  pub delete_lem :
      (Row : Type 0) (p : Row → Bool) (rows : List Row)
      → orm.delete Row p rows ≡ select (λ r. not (p r)) rows
  pub offset_limit_lem :
      (Row : Type 0) (n m : ℕ) (rows : List Row)
      → orm.offset_limit Row n m rows ≡ take m (drop n rows)
