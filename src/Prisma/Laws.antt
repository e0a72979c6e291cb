-- ===== src/Prisma/Laws.antt =====
-- Consequences of the laws of the database: what a query by a unique key finds.
use nestjs_learn.Prelude.{
  ℕ, ◌∙◌, not, arith, All, All-mono, All-of_count, All-of_mem, All-take, All-drop, count-none, ◌≡◌,
  refl, ap, Bool, true, some, List, [], ◌∷◌, Memᴰ, All-at, Option-cases, inl, inr,
}
use nestjs_learn.Prisma.{Prisma, Order, IsArrangement}

module _ (db : Prisma) {Row : Type 0} (test : Row → Bool) (order : List (Order Row)) where
  -- Where a row passes, the query finds one that does.
  pub find_first_of_mem :
      (rows : List Row) (r : Row)
      → Memᴰ r rows
      → test r ≡ true
      → (x : Row) × (db.find_first test order rows ≡ some x) × Memᴰ x rows × (test x ≡ true)
  find_first_of_mem rows r m h = elim (Option-cases (db.find_first test order rows)) [
    | inl missing ↦
        let failed = All-at _ rows (db.find_first_complete test order rows missing) m in cc
    | inr (x, found) ↦
        let (mx, passed) = db.find_first_sound test order rows x found in (x, found, mx, passed)
  ]

  -- A query that can match one row only, as by a unique column, finds that row.
  pub find_first_unique :
      (rows : List Row) (r : Row)
      → Memᴰ r rows
      → test r ≡ true
      → ((x : Row) → Memᴰ x rows → test x ≡ true → x ≡ r)
      → db.find_first test order rows ≡ some r
  find_first_unique rows r m h only =
      let (x, found, mx, passed) = find_first_of_mem rows r m h in
      rw found (ap some (only x mx passed))

  pub find_first_singleton : (r : Row) → test r ≡ true → db.find_first test order (r ∷ []) ≡ some r
  find_first_singleton r h =
      find_first_unique (r ∷ []) r (Memᴰ.head refl) h
        λ x m _. elim m [ Memᴰ.head e ↦ e | Memᴰ.tail n ↦ elim n [ ] ]

module _ (db : Prisma) {Row : Type 0} (test : Row → Bool) (order : List (Order Row)) where
  -- What a query finds passes the test, on every page.
  arrangement-All :
      (rows found : List Row) → IsArrangement test order rows found → All (λ r. test r ≡ true) found
  arrangement-All rows found a =
      All-mono _ found (λ r h. ground arith)
        (All-of_count (λ r. not (test r)) _
          (a.counts (λ r. not (test r))
            ∙ count-none _ rows (All-of_mem _ rows (λ r m. ground arith))))

  pub find_page-All :
      (skip n : ℕ) (rows : List Row)
      → All (λ r. test r ≡ true) (db.find_page test order skip n rows)
  find_page-All skip n rows =
      let (found, arranged, page) = db.find_page_lem test order skip n rows in
      rw page (All-take _ n _ (All-drop _ skip _ (arrangement-All rows found arranged)))
