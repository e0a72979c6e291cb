-- ===== src/Prisma.antt =====
-- What the services use of the Prisma client, which is generated and not part of the repository: an
-- interface of queries over the rows of one table, with the documented behaviour that the services
-- rely on as laws. The rows of a table are a list in the order of their insertion.
pub mod Ordering
pub mod Memory
pub mod Laws
use nestjs_learn.Prelude.{
  ℕ, ◌≡◌, Bool, true, false, ◌&&◌, Option, none, some, List, [], ◌∷◌, ◌++◌, Memᴰ, String, ltb,
  nat_eq, if◌then◌else◌, not, keep, count, map_where, take, drop, All,
}

-- One entry of an `orderBy` clause, over a column that is read as a number.
pub data Order (Row : Type 0) : Type 0 where
  asc : (Row → ℕ) → Order Row
  desc : (Row → ℕ) → Order Row

-- Whether the first row stands before the second under an `orderBy` clause.
abbrev pub before : {Row : Type 0} → List (Order Row) → Row → Row → Bool
before [] a b = false
before (asc key ∷ rest) a b =
    let later = before rest a b in
    if ltb (key a) (key b) then true else if nat_eq (key a) (key b) then later else false
before (desc key ∷ rest) a b =
    let later = before rest a b in
    if ltb (key b) (key a) then true else if nat_eq (key a) (key b) then later else false

-- No row stands before one that is listed earlier.
abbrev pub IsOrdered : {Row : Type 0} → List (Order Row) → List Row → Type 0
IsOrdered order [] = Unit
IsOrdered order (x ∷ xs) = All (λ y. before order y x ≡ false) xs × IsOrdered order xs

-- The rows that pass, each as often as it stands in the table, in an order that the clause admits:
-- rows that are equal under the clause may stand in any order.
pub record IsArrangement {Row : Type 0} (test : Row → Bool) (order : List (Order Row))
    (rows found : List Row) : Type 0 where
  pub counts : (q : Row → Bool) → count q found ≡ count (λ r. test r && q r) rows
  pub members : All (λ r. Memᴰ r (keep test rows)) found
  pub ordered : IsOrdered order found

pub record Prisma : Type 1 where
  -- `findFirst`, and `findUnique` where the test fixes a unique column.
  pub find_first : {Row : Type 0} → (Row → Bool) → List (Order Row) → List Row → Option Row
  pub find_first_sound :
      {Row : Type 0} (test : Row → Bool) (order : List (Order Row)) (rows : List Row) (r : Row)
      → find_first test order rows ≡ some r
      → Memᴰ r rows × (test r ≡ true)
  pub find_first_complete :
      {Row : Type 0} (test : Row → Bool) (order : List (Order Row)) (rows : List Row)
      → find_first test order rows ≡ none
      → All (λ r. test r ≡ false) rows
  pub find_first_minimal :
      {Row : Type 0} (test : Row → Bool) (order : List (Order Row)) (rows : List Row) (r : Row)
      → find_first test order rows ≡ some r
      → All (λ x. test x ≡ true → before order x r ≡ false) rows
  pub find_many : {Row : Type 0} → (Row → Bool) → List (Order Row) → List Row → List Row
  pub find_many_lem :
      {Row : Type 0} (test : Row → Bool) (order : List (Order Row)) (rows : List Row)
      → IsArrangement test order rows (find_many test order rows)
  -- `findMany` with `skip` and `take`: a part of one arrangement, which can be another one at each
  -- call.
  pub find_page : {Row : Type 0} → (Row → Bool) → List (Order Row) → ℕ → ℕ → List Row → List Row
  pub find_page_lem :
      {Row : Type 0} (test : Row → Bool) (order : List (Order Row)) (skip n : ℕ) (rows : List Row)
      → (found : List Row) × IsArrangement test order rows found
        × (find_page test order skip n rows ≡ take n (drop skip found))
  pub count_rows : {Row : Type 0} → (Row → Bool) → List Row → ℕ
  pub count_rows_lem :
      {Row : Type 0} (test : Row → Bool) (rows : List Row) → count_rows test rows ≡ count test rows
  pub create : {Row : Type 0} → Row → List Row → List Row
  pub create_lem : {Row : Type 0} (r : Row) (rows : List Row) → create r rows ≡ rows ++ r ∷ []
  -- `updateMany`, and `update` where the test fixes a unique column: the table, and the count.
  pub update_many : {Row : Type 0} → (Row → Bool) → (Row → Row) → List Row → List Row × ℕ
  pub update_many_rows :
      {Row : Type 0} (test : Row → Bool) (f : Row → Row) (rows : List Row)
      → (update_many test f rows).0 ≡ map_where test f rows
  pub update_many_count :
      {Row : Type 0} (test : Row → Bool) (f : Row → Row) (rows : List Row)
      → (update_many test f rows).1 ≡ count test rows
  pub delete_many : {Row : Type 0} → (Row → Bool) → List Row → List Row
  pub delete_many_lem :
      {Row : Type 0} (test : Row → Bool) (rows : List Row)
      → delete_many test rows ≡ keep (λ r. not (test r)) rows
  -- The `n`th identifier that `cuid()` makes.
  pub cuid : ℕ → String
  pub cuid_injective : (n m : ℕ) → cuid n ≡ cuid m → n ≡ m
