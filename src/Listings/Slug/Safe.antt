-- ===== src/Listings/Slug/Safe.antt =====
-- Which characters a slug can have.
use Prim.Native.Char.{code}
use Prim.Native.String.{◌∷◌ as char_cons}
use nestjs_learn.Text.Laws.{Every-append}
use nestjs_learn.Prelude.{
  ℕ, zero, suc, ◌+◌, ◌≡◌, refl, ap, Bool, true, false, ◌&&◌, ◌||◌, not, Option, some, List, String,
  arith, nat_eq, if◌then◌else◌, Bool-cases, inl, inr,
}
use nestjs_learn.Prisma.{Prisma}
use nestjs_learn.Schema.{Listing}
use nestjs_learn.Listings.Slug.Decimal.{is_digit, decimal-Every}
use nestjs_learn.Text.{Every, Unicode, is_space, is_empty, trim, trim_start, trim_end}
use nestjs_learn.Listings.Slug.{
  drop_chars, is_mark, is_slug_letter, is_dropped, dashes, slice_start, slug_base, first_candidate,
  candidate, is_free, search_slug, generate_slug,
}

-- A letter from `a` to `z`, a digit or a dash.
abbrev pub is_slug_char : ℕ → Bool
is_slug_char n = is_slug_letter n || nat_eq n 45

-- Nothing in the text needs an escape in a URL.
abbrev pub IsSlug : String → Type 0
IsSlug = Every is_slug_char

abbrev kept : ℕ → Bool
kept n = not (is_dropped n)

drop_chars-Every : (s : String) → Every kept (drop_chars is_dropped s)
unfolding drop_chars
drop_chars-Every String.[] = tt
drop_chars-Every (String.◌∷◌ c s) = elim (Bool-cases (is_dropped (code c))) [
  | inl dropped ↦ rw dropped (drop_chars-Every s)
  | inr stays ↦ rw stays (ap not stays, drop_chars-Every s)
]

trim_start-Every : (ok : ℕ → Bool) (s : String) → Every ok s → Every ok (trim_start s)
unfolding trim_start
trim_start-Every ok String.[] h = tt
trim_start-Every ok (String.◌∷◌ c s) (p, h) = elim (Bool-cases (is_space (code c))) [
  | inl space ↦ rw space (trim_start-Every ok s h)
  | inr other ↦ rw other (p, h)
]

trim_end-Every : (ok : ℕ → Bool) (s : String) → Every ok s → Every ok (trim_end s)
unfolding trim_end
trim_end-Every ok String.[] h = tt
trim_end-Every ok (String.◌∷◌ c s) (p, h) =
    elim (Bool-cases (is_space (code c) && is_empty (trim_end s))) [
      | inl gone ↦ rw gone tt
      | inr stays ↦ rw stays (p, trim_end-Every ok s h)
    ]

dashes-IsSlug : (in_run : Bool) (s : String) → Every kept s → IsSlug (dashes in_run s)
unfolding dashes
dashes-IsSlug in_run String.[] h = tt
dashes-IsSlug in_run (String.◌∷◌ c s) (p, h) = elim (Bool-cases (is_space (code c))) [
  | inl space ↦ rw space (run in_run (dashes-IsSlug true s h))
  | inr other ↦ rw other (ground arith, dashes-IsSlug false s h)
]
  where
    run :
        (b : Bool)
        → IsSlug (dashes true s)
        → IsSlug (if b then dashes true s else char_cons "-" (dashes true s))
    run true more = more
    run false more = (refl, more)

slice_start-Every : (ok : ℕ → Bool) (n : ℕ) (s : String) → Every ok s → Every ok (slice_start n s)
unfolding slice_start
slice_start-Every ok zero s h = tt
slice_start-Every ok (suc n) String.[] h = tt
slice_start-Every ok (suc n) (String.◌∷◌ c s) (p, h) = (p, slice_start-Every ok n s h)

Every-mono :
    (ok ok' : ℕ → Bool)
    → ((n : ℕ) → ok n ≡ true → ok' n ≡ true)
    → (s : String) → Every ok s
    → Every ok' s
Every-mono ok ok' step String.[] h = tt
Every-mono ok ok' step (String.◌∷◌ c s) (p, h) = (step (code c) p, Every-mono ok ok' step s h)

slug_base-IsSlug : (u : Unicode) (title : String) → IsSlug (slug_base u title)
unfolding slug_base trim
slug_base-IsSlug u title =
    let cleaned = drop_chars is_mark (u.nfd (u.to_lower title)) in
    slice_start-Every is_slug_char 80 _ (
      dashes-IsSlug false _
        (trim_end-Every kept _ (trim_start-Every kept _ (drop_chars-Every cleaned))))

candidate-IsSlug : (base : String) (index : ℕ) → IsSlug base → IsSlug (candidate base index)
unfolding candidate
candidate-IsSlug base index h =
    Every-append is_slug_char base _ h
      (refl, Every-mono is_digit is_slug_char (λ n d. ground arith) _ (decimal-Every index))

first_candidate-IsSlug : (base : String) → IsSlug base → IsSlug (first_candidate base)
unfolding first_candidate
first_candidate-IsSlug base h = elim (Bool-cases (is_empty base)) [
  | inl blank ↦ rw blank (refl, (refl, (refl, (refl, (refl, (refl, (refl, tt)))))))
  | inr other ↦ rw other h
]

module _ (db : Prisma) (exclude : Option String) (rows : List Listing) where
  search_slug-IsSlug :
      (fuel index : ℕ) (base current slug : String)
      → IsSlug base
      → IsSlug current
      → search_slug db exclude rows fuel base current index ≡ some slug
      → IsSlug slug
  unfolding search_slug
  search_slug-IsSlug zero index base current slug h k e = cc
  search_slug-IsSlug (suc fuel) index base current slug h k e =
      elim (Bool-cases (is_free db exclude rows current)) [
        | inl free ↦ let same : current ≡ slug = ground arith in rw same at k
        | inr busy ↦
            search_slug-IsSlug fuel (index + 1) base (candidate base index) slug h
              (candidate-IsSlug base index h) (ground arith)
      ]

  -- For every title and every table of Unicode, each character of a generated slug is a letter from
  -- a to z, a digit or a dash.
  pub generate_slug-IsSlug :
      (u : Unicode) (fuel : ℕ) (title slug : String)
      → generate_slug db exclude rows u fuel title ≡ some slug
      → IsSlug slug
  unfolding generate_slug
  generate_slug-IsSlug u fuel title slug e =
      let safe = slug_base-IsSlug u title in
      search_slug-IsSlug fuel 1 (slug_base u title) _ slug safe
        (first_candidate-IsSlug (slug_base u title) safe) e
