-- ===== src/Pagination/Cover.antt =====
-- The pages of a query, one after the other, and the query without paging.
use nestjs_learn.Prelude.{
  keep, ℕ, zero, suc, ◌+◌, ◌-◌, ◌*◌, ◌≤◌, ◌<◌, ◌≡◌, refl, sym, ap, ◌∙◌, Bool, true, List, [], ◌∷◌,
  ◌++◌, arith, length, take, drop, count, ◌&&◌,
}
use native.Mathlib.Nat.{zero-add, suc-add, zero-mul, suc-mul}
use nestjs_learn.Prisma.{Prisma, Order}
use nestjs_learn.Prisma.Ordering.{HasNoTies, arrangement_unique}
use nestjs_learn.Pagination.{total_pages, find_paged}

module _ {ℓ} {A : Type ℓ} where
  take_nil : (n : ℕ) → take {A = A} n [] ≡ []
  take_nil zero = refl
  take_nil (suc n) = refl

  take-add : (a b : ℕ) (xs : List A) → take (a + b) xs ≡ take a xs ++ take b (drop a xs)
  take-add zero b xs = rw zero-add
  take-add (suc a) b [] = rw suc-add (sym (take_nil b))
  take-add (suc a) b (x ∷ xs) = rw (suc-add, take-add a b xs)

  take_all : (n : ℕ) (xs : List A) → length xs ≤ n → take n xs ≡ xs
  take_all zero [] h = refl
  take_all zero (x ∷ xs) h = absurd (omega arith)
  take_all (suc n) [] h = refl
  take_all (suc n) (x ∷ xs) h = ap (λ ys. x ∷ ys) (take_all n xs (omega arith))

  count_every : (xs : List A) → count (λ _. true) xs ≡ length xs
  count_every [] = refl
  count_every (x ∷ xs) = rw (count_every xs)

  count-and_true : (test : A → Bool) (xs : List A) → count (λ x. test x && true) xs ≡ count test xs
  count-and_true test [] = refl
  count-and_true test (x ∷ xs) = ground (arith, count-and_true test xs)

-- The pages that `Math.ceil` counts are enough for all rows.
enough_pages : (total limit : ℕ) → 0 < limit → total ≤ total_pages total limit * limit
enough_pages total limit h = grind arith

module _ (db : Prisma) {Row : Type 0} (test : Row → Bool) (order : List (Order Row)) (limit : ℕ)
    (rows : List Row) where
  -- The data of the pages from 1 to `n`, one after the other.
  abbrev pub first_pages : ℕ → List Row
  first_pages zero = []
  first_pages (suc n) =
      first_pages n
      ++ (find_paged db test order (record { page = suc n; limit = limit }) rows).data_rows

  -- Every page is a part of the same arrangement, where the clause admits one only.
  find_page-eq-take :
      HasNoTies order (keep test rows)
      → (skip n : ℕ)
      → db.find_page test order skip n rows ≡ take n (drop skip (db.find_many test order rows))
  find_page-eq-take apart skip n =
      let (found, arranged, page) = db.find_page_lem test order skip n rows in
      page
      ∙ ap (λ (xs : List Row). take n (drop skip xs))
          (arrangement_unique order test rows found (db.find_many test order rows) apart arranged
            (db.find_many_lem test order rows))

  first_pages-eq-take :
      HasNoTies order (keep test rows)
      → (n : ℕ) → first_pages n ≡ take (n * limit) (db.find_many test order rows)
  unfolding find_paged
  first_pages-eq-take apart zero = rw zero-mul
  first_pages-eq-take apart (suc n) =
      let found = db.find_many test order rows in
      let before : suc n - 1 ≡ n = omega arith in
      let step : suc n * limit ≡ n * limit + limit = suc-mul n limit in
      rw (before, find_page-eq-take apart (n * limit) limit, first_pages-eq-take apart n, step)
        (sym (take-add (n * limit) limit found))

  -- For a positive page size, and where no two of the rows that pass are equal under the order, the
  -- data of all pages that `meta.totalPages` announces, one page after the other, is exactly what
  -- the query finds without paging: no row is lost and none is repeated.
  pub pages_cover :
      0 < limit
      → HasNoTies order (keep test rows)
      → (page : ℕ)
      → first_pages
          (find_paged db test order (record { page = page; limit = limit }) rows).meta.total_pages
        ≡ db.find_many test order rows
  unfolding find_paged
  pages_cover h apart page =
      let found = db.find_many test order rows in
      let size : length found ≡ count test rows =
        sym (count_every found)
        ∙ (db.find_many_lem test order rows).counts (λ _. true)
        ∙ count-and_true test rows in
      rw (db.count_rows_lem test rows) (
        first_pages-eq-take apart (total_pages (count test rows) limit)
        ∙ take_all _ found (omega (arith, size, enough_pages (count test rows) limit h)))
