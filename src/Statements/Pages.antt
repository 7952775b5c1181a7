-- ===== src/Statements/Pages.antt =====
-- The pages of a list of transactions, one after the other.
use native.Mathlib.Nat.{lt-div-mul-add}
use ldb_backend_hack.Base.{
  ℕ, zero, suc, ◌+◌, ◌-◌, ◌*◌, ◌≤◌, ◌<◌, max, ◌≡◌, refl, sym, ap, ap₂, ◌∙◌, List, [], ◌∷◌, ◌++◌,
  map, take, drop, length, arith,
}
use ldb_backend_hack.Model.{Transaction}
use ldb_backend_hack.Orm.{Orm, IsLawful}
use ldb_backend_hack.Orm.Memory.{memory, lawful-eq-memory}
use ldb_backend_hack.Statements.{PaginateFilter, TransactionView, view_of, ceil_div, page_of}

module _ {A : Type 0} where
  take_nil : (n : ℕ) → take {A = A} n [] ≡ []
  take_nil zero = refl
  take_nil (suc n) = refl

  take-append-drop : (n k : ℕ) (xs : List A) → take n xs ++ take k (drop n xs) ≡ take (n + k) xs
  take-append-drop zero k xs = ap (λ i. take i xs) (omega arith)
  take-append-drop (suc n) k [] = take_nil k ∙ sym (take_nil (suc n + k))
  take-append-drop (suc n) k (x ∷ xs) =
      let sum : suc (n + k) ≡ suc n + k = omega arith in
      ap (λ rest. x ∷ rest) (take-append-drop n k xs) ∙ ap (λ i. take i (x ∷ xs)) sum

  take_all : (n : ℕ) (xs : List A) → length xs ≤ n → take n xs ≡ xs
  take_all zero [] h = refl
  take_all (suc n) [] h = refl
  take_all zero (x ∷ xs) h = absurd (omega (arith, h))
  take_all (suc n) (x ∷ xs) h = ap (λ rest. x ∷ rest) (take_all n xs (omega (arith, h)))

map-append : {A B : Type 0} (f : A → B) (xs ys : List A) → map f (xs ++ ys) ≡ map f xs ++ map f ys
map-append f [] ys = refl
map-append f (x ∷ xs) ys = ap (λ rest. f x ∷ rest) (map-append f xs ys)

-- The items of the first `n` pages.
abbrev pub items_until :
    Orm → (List Transaction → List Transaction) → ℕ → List Transaction → ℕ → List TransactionView
items_until orm newest_first limit query zero = []
items_until orm newest_first limit query (suc n) =
    items_until orm newest_first limit query n
    ++ (page_of orm newest_first (record { page = suc n; limit = limit }) query).items

before : (n : ℕ) → suc n - 1 ≡ n
before n = omega arith

module _ (newest_first : List Transaction → List Transaction) (limit : ℕ)
    (query : List Transaction) where
  items_until_lem :
      (n : ℕ) → items_until memory newest_first limit query n ≡ map view_of (take (n * limit) query)
  unfolding page_of
  items_until_lem zero =
      let none_yet : 0 ≡ 0 * limit = omega arith in ap (λ i. map view_of (take i query)) none_yet
  items_until_lem (suc n) =
      let start : (suc n - 1) * limit ≡ n * limit = ap (λ i. i * limit) (before n) in
      let stop : n * limit + limit ≡ suc n * limit = omega arith in
      ap₂ (λ xs i. xs ++ map view_of (take limit (drop i query))) (items_until_lem n) start
      ∙ sym (map-append view_of (take (n * limit) query) (take limit (drop (n * limit) query)))
      ∙ ap (map view_of) (take-append-drop (n * limit) limit query)
      ∙ ap (λ i. map view_of (take i query)) stop

  enough_pages : 0 < limit → length query ≤ max (ceil_div (length query) limit) 1 * limit
  enough_pages h = grind (arith, lt-div-mul-add {a = length query + limit - 1} h)

-- Over any lawful ORM, where the limit is not 0, the items of the pages from the first to the last,
-- as the number of pages on any page says, are all the transactions, each once and in order.
pub page_of_all :
    (orm : Orm) (laws : IsLawful orm) (newest_first : List Transaction → List Transaction)
    (filters : PaginateFilter) (query : List Transaction)
    → 0 < filters.limit
    → items_until orm newest_first filters.limit query
        (page_of orm newest_first filters query).pages
      ≡ map view_of query
unfolding page_of
page_of_all orm laws newest_first filters query h = rw (lawful-eq-memory orm laws) (
    items_until_lem newest_first filters.limit query (max (ceil_div (length query) filters.limit) 1)
    ∙ ap (map view_of) (take_all _ query (enough_pages newest_first filters.limit query h)))
