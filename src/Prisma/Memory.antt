-- ===== src/Prisma/Memory.antt =====
-- A database in memory that meets the laws of the interface, on which the tests run.
use nestjs_learn.Prelude.{
  ℕ, zero, suc, subst, sym, ◌≡◌, refl, Bool, true, false, ◌&&◌, Option, none, some, List, [], ◌∷◌,
  ◌++◌, Memᴰ, String, if◌then◌else◌, not, keep, count, map_where, take, drop, All, All-mono,
  All-of_mem, arith, Bool-cases, Option-cases, inl, inr, ap,
}
use text.Mathlib.TextLemmas.{nil≢cons, cons≢nil, tail-eq_of_cons-eq}
use nestjs_learn.Prisma.{Prisma, Order, before, IsOrdered, IsArrangement}
use nestjs_learn.Prisma.Ordering.{before_irrefl, before_trans, before_asym}

module _ {Row : Type 0} (test : Row → Bool) (order : List (Order Row)) where
  choose : Row → Option Row → Option Row
  choose x none = some x
  choose x (some y) = if before order y x then some y else some x

  pub first : List Row → Option Row
  unfolding choose
  first [] = none
  first (x ∷ xs) = let later = first xs in if test x then choose x later else later

module _ {Row : Type 0} (test : Row → Bool) (order : List (Order Row)) where
  pub first_sound :
      (rows : List Row) (r : Row) → first test order rows ≡ some r → Memᴰ r rows × (test r ≡ true)
  unfolding first
  first_sound [] r h = cc
  first_sound (x ∷ xs) r h = elim (Bool-cases (test x)) [
    | inr skipped ↦ let (m, t) = first_sound xs r (ground arith) in (Memᴰ.tail m, t)
    | inl passed ↦ elim (Option-cases (first test order xs)) [
      | inl none_later ↦ let e : r ≡ x = ground arith in (Memᴰ.head e, rw e passed)
      | inr (y, found) ↦
          let (m, t) = first_sound xs y found in
          elim (Bool-cases (before order y x)) [
            | inl earlier ↦ let e : r ≡ y = ground arith in rw e (Memᴰ.tail m, t)
            | inr later ↦ let e : r ≡ x = ground arith in (Memᴰ.head e, rw e passed)
          ]
    ]
  ]

  pub first_complete :
      (rows : List Row) → first test order rows ≡ none → All (λ r. test r ≡ false) rows
  unfolding first
  first_complete [] h = tt
  first_complete (x ∷ xs) h = (ground arith, first_complete xs (ground arith))

  -- No row that passes stands before the given one.
  abbrev pub IsMinimal : List Row → Row → Type 0
  IsMinimal rows r = All (λ z. test z ≡ true → before order z r ≡ false) rows

  -- The earliest row of a tail stays earliest if an equal or later row is put before it.
  IsMinimal-cons :
      (rows : List Row) (y r : Row) → before order y r ≡ false → IsMinimal rows y → IsMinimal rows r
  IsMinimal-cons [] y r h k = tt
  IsMinimal-cons (z ∷ zs) y r h (k, ks) =
      (λ t. before_trans order z y r (k t) h, IsMinimal-cons zs y r h ks)

  IsMinimal-none : (rows : List Row) (r : Row) → All (λ z. test z ≡ false) rows → IsMinimal rows r
  IsMinimal-none [] r h = tt
  IsMinimal-none (z ∷ zs) r (h, hs) = (λ t. cc, IsMinimal-none zs r hs)

  pub first-IsMinimal :
      (rows : List Row) (r : Row) → first test order rows ≡ some r → IsMinimal rows r
  unfolding first
  first-IsMinimal [] r h = tt
  first-IsMinimal (x ∷ xs) r h = elim (Bool-cases (test x)) [
    | inr skipped ↦ (λ t. cc, first-IsMinimal xs r (ground arith))
    | inl passed ↦ elim (Option-cases (first test order xs)) [
      | inl none_later ↦
          let e : r ≡ x = ground arith in
          subst (IsMinimal (x ∷ xs)) (sym e)
            (λ _. before_irrefl order x, IsMinimal-none xs x (first_complete xs none_later))
      | inr (y, found) ↦ elim (Bool-cases (before order y x)) [
        | inl earlier ↦
            let e : r ≡ y = ground arith in
            subst (IsMinimal (x ∷ xs)) (sym e)
              (λ _. before_asym order y x earlier, first-IsMinimal xs y found)
        | inr later ↦
            let e : r ≡ x = ground arith in
            subst (IsMinimal (x ∷ xs)) (sym e)
              (λ _. before_irrefl order x, IsMinimal-cons xs y x later (first-IsMinimal xs y found))
      ]
    ]
  ]

module _ {Row : Type 0} (order : List (Order Row)) where
  place : Row → List Row → List Row
  place r [] = r ∷ []
  place r (x ∷ xs) = let rest = place r xs in if before order x r then x ∷ rest else r ∷ x ∷ xs

  pub many : (Row → Bool) → List Row → List Row
  unfolding place
  many test [] = []
  many test (x ∷ xs) = let rest = many test xs in if test x then place x rest else rest

  count-place :
      (q : Row → Bool) (r : Row) (rows : List Row) → count q (place r rows) ≡ count q (r ∷ rows)
  unfolding place
  count-place q r [] = refl
  count-place q r (x ∷ xs) = ground (arith, count-place q r xs)

  pub count-many :
      (test : Row → Bool) (rows : List Row) (q : Row → Bool)
      → count q (many test rows) ≡ count (λ r. test r && q r) rows
  unfolding many
  count-many test [] q = refl
  count-many test (x ∷ xs) q = ground (arith, count-many test xs q, count-place q x (many test xs))

module _ {Row : Type 0} (order : List (Order Row)) where
  All-place :
      (P : Row → Type 0) (r : Row) (rows : List Row) → P r → All P rows → All P (place order r rows)
  unfolding place
  All-place P r [] h k = (h, tt)
  All-place P r (x ∷ xs) h (k, ks) = elim (Bool-cases (before order x r)) [
    | inl earlier ↦ rw earlier (k, All-place P r xs h ks)
    | inr later ↦ rw later (h, (k, ks))
  ]

  place-IsOrdered :
      (r : Row) (rows : List Row) → IsOrdered order rows → IsOrdered order (place order r rows)
  unfolding place
  place-IsOrdered r [] h = (tt, tt)
  place-IsOrdered r (x ∷ xs) (first, rest) = elim (Bool-cases (before order x r)) [
    | inl earlier ↦ rw earlier (
      All-place (λ y. before order y x ≡ false) r xs (before_asym order x r earlier) first,
      place-IsOrdered r xs rest,
    )
    | inr later ↦ rw later (
      (
        later,
        All-mono (λ y. before order y x ≡ false) xs (λ y h. before_trans order y x r h later) first,
      ),
      (first, rest),
    )
  ]

  many-IsOrdered : (test : Row → Bool) (rows : List Row) → IsOrdered order (many order test rows)
  unfolding many
  many-IsOrdered test [] = tt
  many-IsOrdered test (x ∷ xs) = elim (Bool-cases (test x)) [
    | inl passed ↦ rw passed (place-IsOrdered x _ (many-IsOrdered test xs))
    | inr failed ↦ rw failed (many-IsOrdered test xs)
  ]

  many-All :
      (P : Row → Type 0) (test : Row → Bool) (rows : List Row)
      → All P (keep test rows)
      → All P (many order test rows)
  unfolding many
  many-All P test [] h = tt
  many-All P test (x ∷ xs) h = elim (Bool-cases (test x)) [
    | inl passed ↦
        let (k, ks) : P x × All P (keep test xs) = rw passed at h in
        rw passed (All-place P x _ k (many-All P test xs ks))
    | inr failed ↦
        let ks : All P (keep test xs) = rw failed at h in rw failed (many-All P test xs ks)
  ]

  pub many-IsArrangement :
      (test : Row → Bool) (rows : List Row) → IsArrangement test order rows (many order test rows)
  many-IsArrangement test rows = record {
    counts = count-many order test rows;
    members = many-All _ test rows (All-of_mem _ (keep test rows) (λ r m. m));
    ordered = many-IsOrdered test rows;
  }

-- Any injective family of texts serves as the identifiers.
pub numeral : ℕ → String
numeral zero = String.[]
numeral (suc n) = String.◌∷◌ "c" (numeral n)

pub numeral_injective : (n m : ℕ) → numeral n ≡ numeral m → n ≡ m
unfolding numeral
numeral_injective zero zero h = refl
numeral_injective zero (suc m) h = absurd (nil≢cons h)
numeral_injective (suc n) zero h = absurd (cons≢nil h)
numeral_injective (suc n) (suc m) h = ap suc (numeral_injective n m (tail-eq_of_cons-eq h))

unfoldable pub memory : Prisma
unfolding first many numeral
memory = record {
  find_first = first;
  find_first_sound = first_sound;
  find_first_complete = first_complete;
  find_first_minimal = first-IsMinimal;
  find_many = λ test order. many order test;
  find_many_lem = λ test order. many-IsArrangement order test;
  find_page = λ test order skip n rows. take n (drop skip (many order test rows));
  find_page_lem =
      λ test order skip n rows. (many order test rows, many-IsArrangement order test rows, refl);
  count_rows = λ test rows. count test rows;
  count_rows_lem = λ test rows. refl;
  create = λ r rows. rows ++ r ∷ [];
  create_lem = λ r rows. refl;
  update_many = λ test f rows. (map_where test f rows, count test rows);
  update_many_rows = λ test f rows. refl;
  update_many_count = λ test f rows. refl;
  delete_many = λ test rows. keep (λ r. not (test r)) rows;
  delete_many_lem = λ test rows. refl;
  cuid = numeral;
  cuid_injective = numeral_injective;
}
