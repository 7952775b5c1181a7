-- ===== src/Orm/Memory.antt =====
-- Tables in memory, as an instance of the ORM, and how other lawful ORMs compare with it.
use ldb_backend_hack.Base.{
  ◌≡◌, refl, ◌++◌, [], ◌∷◌, List, Bool, true, some, Elem, head?-select, Option-cases, inl, inr, ap,
  ◌∙◌, select, any, head?, replace, take, drop, not, if◌then◌else◌,
}
use ldb_backend_hack.Action.{Exception, ok, raised, integrity_error}
use ldb_backend_hack.Orm.{Orm, IsLawful, at_most_one, required}

abbrev pub memory : Orm
memory = record {
  get_or_none = λ Row p rows. at_most_one (select p rows);
  filter = λ Row p rows. select p rows;
  first = λ Row p rows. head? (select p rows);
  exists = λ Row p rows. any p rows;
  fetch_related = λ Row p rows. required (head? (select p rows));
  create = λ Row conflict row rows.
      if any (conflict row) rows then raised integrity_error else ok (rows ++ row ∷ []);
  save = λ Row same row rows. replace same row rows;
  delete = λ Row p rows. select (λ r. not (p r)) rows;
  offset_limit = λ Row n m rows. take m (drop n rows);
}

pub memory-IsLawful : IsLawful memory
memory-IsLawful = record {
  get_or_none_lem = λ Row p rows. refl;
  filter_lem = λ Row p rows. refl;
  first_lem = λ Row p rows. refl;
  exists_lem = λ Row p rows. refl;
  fetch_related_lem = λ Row p rows. refl;
  create_lem = λ Row conflict row rows. refl;
  save_lem = λ Row same row rows. refl;
  delete_lem = λ Row p rows. refl;
  offset_limit_lem = λ Row n m rows. refl;
}

-- Two lawful ORMs are the same operations.
pub lawful-eq-memory : (orm : Orm) → IsLawful orm → orm ≡ memory
lawful-eq-memory orm laws = λ i. record {
  get_or_none = λ Row p rows. laws.get_or_none_lem Row p rows i;
  filter = λ Row p rows. laws.filter_lem Row p rows i;
  first = λ Row p rows. laws.first_lem Row p rows i;
  exists = λ Row p rows. laws.exists_lem Row p rows i;
  fetch_related = λ Row p rows. laws.fetch_related_lem Row p rows i;
  create = λ Row conflict row rows. laws.create_lem Row conflict row rows i;
  save = λ Row same row rows. laws.save_lem Row same row rows i;
  delete = λ Row p rows. laws.delete_lem Row p rows i;
  offset_limit = λ Row n m rows. laws.offset_limit_lem Row n m rows i;
}

only :
    {Row : Type 0} (rows : List Row) {r : Row}
    → at_most_one rows ≡ ok (some r)
    → head? rows ≡ some r
only [] h = cc
only (r ∷ []) h = cc
only (r ∷ s ∷ rest) h = cc

ok_inj : {A : Type 0} (a b : A) → ok a ≡ ok b → a ≡ b
ok_inj a b h = cc

raised_ne_ok : {A : Type 0} (e : Exception) (a : A) → raised e ≡ ok a → ⊥
raised_ne_ok e a h = cc

module _ {Row : Type 0} (p : Row → Bool) (rows : List Row) {r : Row} where
  -- A row that `fetch_related` yields is in the table and passes the test.
  pub required-select : required (head? (select p rows)) ≡ ok r → Elem r rows × (p r ≡ true)
  required-select h = elim (Option-cases (head? (select p rows))) [
    | inl absent ↦ absurd (raised_ne_ok _ _ (rw absent at h))
    | inr (s, found) ↦ head?-select p rows (found ∙ ap some (ok_inj _ _ (rw found at h)))
  ]

  -- A row that `get_or_none` yields is in the table and passes the test.
  pub at_most_one-select : at_most_one (select p rows) ≡ ok (some r) → Elem r rows × (p r ≡ true)
  at_most_one-select h = head?-select p rows (only (select p rows) h)
