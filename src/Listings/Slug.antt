-- ===== src/Listings/Slug.antt =====
-- `generateSlug` of src/modules/listings/listings.service.ts: the slug of a title, and the search for
-- one that is free. The search has fuel, and is shown to need one round for each listing, and two.
pub mod Decimal
pub mod Safe
pub mod Search
pub mod First
use Prim.Native.Char.{Char, code}
use Prim.Native.String.{[], ◌∷◌, ◌++◌}
use nestjs_learn.Prelude.{
  ℕ, zero, suc, ◌+◌, ◌≡◌, Bool, true, false, not, ◌&&◌, ◌||◌, Option, none, some, List, String, leb,
  nat_eq, if◌then◌else◌, ◌==◌,
}
use nestjs_learn.Prisma.{Prisma}
use nestjs_learn.Schema.{Listing}
use nestjs_learn.Text.{Unicode, is_space, is_empty, trim}
use Decimal.{decimal}

-- `replace(/[…]/g, '')`: the characters that do not match.
unfoldable pub drop_chars : (ℕ → Bool) → String → String
drop_chars matches [] = []
drop_chars matches (c ∷ s) =
    let rest = drop_chars matches s in if matches (code c) then rest else c ∷ rest

-- `[\u0300-\u036f]`: the combining marks.
abbrev pub is_mark : ℕ → Bool
is_mark n = leb 768 n && leb n 879

-- `[a-z0-9]`.
abbrev pub is_slug_letter : ℕ → Bool
is_slug_letter n = leb 97 n && leb n 122 || leb 48 n && leb n 57

-- `[^a-z0-9\s-]`.
abbrev pub is_dropped : ℕ → Bool
is_dropped n = not (is_slug_letter n || is_space n || nat_eq n 45)

-- `replace(/\s+/g, '-')`: a run of white space becomes one dash; the flag tells that the character
-- before was white space.
unfoldable pub dashes : Bool → String → String
dashes in_run [] = []
dashes in_run (c ∷ s) =
    let more = dashes true s in
    let next = dashes false s in
    if is_space (code c) then (if in_run then more else "-" ∷ more) else c ∷ next

-- `slice(0, n)`.
unfoldable pub slice_start : ℕ → String → String
slice_start zero s = []
slice_start (suc n) [] = []
slice_start (suc n) (c ∷ s) = c ∷ slice_start n s

unfoldable pub slug_base : Unicode → String → String
unfolding drop_chars dashes slice_start
slug_base u title =
    slice_start 80
      (dashes false (trim (drop_chars is_dropped (drop_chars is_mark (u.nfd (u.to_lower title))))))

unfoldable pub first_candidate : String → String
first_candidate base = if is_empty base then "listing" else base

-- `${base}-${index}`.
unfoldable pub candidate : String → ℕ → String
candidate base index = base ++ ("-" ∷ decimal index)

-- `existing.id === excludeId`, false where there is none to exclude.
abbrev pub is_excluded : Option String → String → Bool
is_excluded none id = false
is_excluded (some e) id = id == e

abbrev pub has_slug : String → Listing → Bool
has_slug slug l = l.slug == slug

module _ (db : Prisma) (exclude : Option String) (rows : List Listing) where
  -- The test that ends the loop.
  unfoldable pub is_free : String → Bool
  is_free slug = elim (db.find_first (has_slug slug) List.[] rows) [
    | none ↦ true
    | some existing ↦ is_excluded exclude existing.id
  ]

  -- The rounds of `while (true)`, with the candidate and the next index; `none` is out of fuel.
  unfoldable pub search_slug : ℕ → String → String → ℕ → Option String
  unfolding is_free candidate
  search_slug zero base current index = none
  search_slug (suc fuel) base current index =
      let rest = search_slug fuel base (candidate base index) (index + 1) in
      if is_free current then some current else rest

  unfoldable pub generate_slug : Unicode → ℕ → String → Option String
  unfolding search_slug slug_base first_candidate
  generate_slug u fuel title =
      search_slug fuel (slug_base u title) (first_candidate (slug_base u title)) 1
