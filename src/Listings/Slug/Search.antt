-- ===== src/Listings/Slug/Search.antt =====
-- The search for a free slug ends, and its result is free.
use Prim.Native.String.{◌∷◌ as char_cons}
use text.Mathlib.TextLemmas.{append_cancel_left, tail-eq_of_cons-eq}
use nestjs_learn.Prelude.{
  any_of_mem, ℕ, zero, suc, ◌+◌, ◌≤◌, ◌<◌, ◌≡◌, refl, ◌∙◌, sym, inl, inr, true, false, Option, none,
  some, List, [], ◌∷◌, Memᴰ, String, arith, length, All, All-at, All-of_mem, any, subst,
  if◌then◌else◌, eq_iff, Bool-cases, Option-cases,
}
use native.Mathlib.Nat.{add-zero}
use nestjs_learn.Prisma.{Prisma}
use nestjs_learn.Schema.{Listing}
use nestjs_learn.Text.{Unicode}
use nestjs_learn.Listings.Slug.Decimal.{decimal, decimal_injective}
use nestjs_learn.Listings.Slug.{
  slug_base, first_candidate, candidate, is_excluded, has_slug, is_free, search_slug, generate_slug,
}

candidate_injective : (base : String) (n m : ℕ) → candidate base n ≡ candidate base m → n ≡ m
unfolding candidate
candidate_injective base n m e =
    decimal_injective n m
      (tail-eq_of_cons-eq (append_cancel_left base (char_cons "-" (decimal n)) _ e))

-- How many of the `n` candidates from an index on are the slug of some row.
module _ (base : String) (from : ℕ) where
  matches : ℕ → Listing → ℕ
  matches zero r = 0
  matches (suc n) r = (if has_slug (candidate base (from + n)) r then 1 else 0) + matches n r

  taken : ℕ → List Listing → ℕ
  taken zero rows = 0
  taken (suc n) rows =
      (if any (has_slug (candidate base (from + n))) rows then 1 else 0) + taken n rows

  no_match : (n k : ℕ) (r : Listing) → n ≤ k → r.slug ≡ candidate base (from + k) → matches n r ≡ 0
  unfolding matches
  no_match zero k r h e = refl
  no_match (suc n) k r h e = ground (
    arith,
    no_match n k r (omega arith) e,
    eq_iff r.slug (candidate base (from + n)),
    candidate_injective base (from + k) (from + n),
  )

  -- A row has one slug.
  matches-le : (n : ℕ) (r : Listing) → matches n r ≤ 1
  unfolding matches
  matches-le zero r = omega arith
  matches-le (suc n) r = ground (
    arith,
    matches-le n r,
    eq_iff r.slug (candidate base (from + n)),
    no_match n n r (omega arith),
  )

  taken-cons :
      (n : ℕ) (r : Listing) (rows : List Listing) → taken n (r ∷ rows) ≤ matches n r + taken n rows
  unfolding matches taken
  taken-cons zero r rows = omega arith
  taken-cons (suc n) r rows = ground (arith, taken-cons n r rows)

  taken_nil : (n : ℕ) → taken n [] ≡ 0
  unfolding taken
  taken_nil zero = refl
  taken_nil (suc n) = omega (arith, taken_nil n)

  -- The pigeonhole: no more candidates are taken than there are rows.
  taken-le : (n : ℕ) (rows : List Listing) → taken n rows ≤ length rows
  taken-le n [] = omega (arith, taken_nil n)
  taken-le n (r ∷ rows) = omega (arith, taken-cons n r rows, matches-le n r, taken-le n rows)

-- The slugs are a unique column.
abbrev pub HasSlugs : List Listing → Type 0
HasSlugs rows = (a b : Listing) → Memᴰ a rows → Memᴰ b rows → a.slug ≡ b.slug → a ≡ b

module _ (db : Prisma) (exclude : Option String) (rows : List Listing) where
  pub taken_of_not_free :
      (slug : String) → is_free db exclude rows slug ≡ false → any (has_slug slug) rows ≡ true
  unfolding is_free
  taken_of_not_free slug h = elim (Option-cases (db.find_first (has_slug slug) [] rows)) [
    | inl missing ↦ absurd (ground arith)
    | inr (r, found) ↦
        let (m, passed) = db.find_first_sound (has_slug slug) [] rows r found in
        any_of_mem (has_slug slug) rows m passed
  ]

  -- A search that ran out of fuel has tried, and found taken, one candidate for each round but one.
  search-none :
      (base : String) (fuel index k : ℕ) (current : String)
      → search_slug db exclude rows fuel base current index ≡ none
      → suc k < fuel
      → is_free db exclude rows (candidate base (index + k)) ≡ false
  unfolding search_slug
  search-none base zero index k current h lt = absurd (omega arith)
  search-none base (suc zero) index k current h lt = absurd (omega arith)
  search-none base (suc (suc fuel)) index zero current h lt = rw add-zero (ground arith)
  search-none base (suc (suc fuel)) index (suc k) current h lt =
      subst (λ m. is_free db exclude rows (candidate base m) ≡ false) (omega arith)
        (search-none base (suc fuel) (index + 1) k (candidate base index) (ground arith)
          (omega arith))

  taken_all :
      (base : String) (n index : ℕ)
      → ((k : ℕ) → k < n → is_free db exclude rows (candidate base (index + k)) ≡ false)
      → taken base index n rows ≡ n
  unfolding taken
  taken_all base zero index h = refl
  taken_all base (suc n) index h = ground (
    arith,
    taken_of_not_free (candidate base (index + n)) (h n (omega arith)),
    taken_all base n index (λ k lt. h k (omega arith)),
  )

  search-free :
      (base : String) (fuel index : ℕ) (current slug : String)
      → search_slug db exclude rows fuel base current index ≡ some slug
      → is_free db exclude rows slug ≡ true
  unfolding search_slug
  search-free base zero index current slug h = cc
  search-free base (suc fuel) index current slug h =
      elim (Bool-cases (is_free db exclude rows current)) [
        | inl free ↦ ground arith
        | inr busy ↦ search-free base fuel (index + 1) (candidate base index) slug (ground arith)
      ]

  is_free-excluded :
      (slug : String)
      → HasSlugs rows
      → is_free db exclude rows slug ≡ true
      → All (λ r. r.slug ≡ slug → is_excluded exclude r.id ≡ true) rows
  unfolding is_free
  is_free-excluded slug key h = All-of_mem _ rows λ r m e.
      elim (Option-cases (db.find_first (has_slug slug) [] rows)) [
        | inl missing ↦
            let other = All-at _ rows (db.find_first_complete (has_slug slug) [] rows missing) m in
            absurd (ground (arith, eq_iff r.slug slug))
        | inr (x, found) ↦
            let (mx, passed) = db.find_first_sound (has_slug slug) [] rows x found in
            let same = key r x m mx (e ∙ sym ((eq_iff x.slug slug).0 passed)) in
            let kept : is_excluded exclude x.id ≡ true = ground arith in
            subst (λ (l : Listing). is_excluded exclude l.id ≡ true) (sym same) kept
      ]

  -- Where no two listings have the same slug, and with one round of fuel for each listing and two
  -- more, `generateSlug` finds a slug, for every title; no listing has that slug, but for the one
  -- that the caller excludes.
  pub generate_slug_total :
      (u : Unicode) (fuel : ℕ) (title : String)
      → HasSlugs rows
      → length rows + 2 ≤ fuel
      → (slug : String) × (generate_slug db exclude rows u fuel title ≡ some slug)
        × All (λ r. r.slug ≡ slug → is_excluded exclude r.id ≡ true) rows
  unfolding generate_slug
  generate_slug_total u fuel title key enough =
      let base = slug_base u title in
      let current = first_candidate base in
      elim (Option-cases (search_slug db exclude rows fuel base current 1)) [
        | inl none_left ↦
            let all_taken =
              taken_all base (length rows + 1) 1
                (λ k lt. search-none base fuel 1 k current none_left (omega arith)) in
            absurd (omega (arith, all_taken, taken-le base 1 (length rows + 1) rows))
        | inr (slug, found) ↦
            (slug, found, is_free-excluded slug key (search-free base fuel 1 current slug found))
      ]
