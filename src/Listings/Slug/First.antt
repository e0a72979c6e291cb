-- ===== src/Listings/Slug/First.antt =====
-- Which of the candidates for a slug the search of src/modules/listings/listings.service.ts takes.
use Prim.Native.String.{◌∷◌ as char_cons, ◌++◌ as str_append}
use nestjs_learn.Prelude.{
  ℕ, zero, suc, ◌+◌, ◌≡◌, Option, List, [], ◌∷◌, String, any, if◌then◌else◌, true,
}
use nestjs_learn.Prisma.{Prisma}
use nestjs_learn.Schema.{Listing}
use nestjs_learn.Text.{is_empty}
use nestjs_learn.Listings.Slug.Decimal.{decimal}
use nestjs_learn.Listings.Slug.{has_slug}

-- The slugs of a base in their order: the base, or a word where it is empty, and then the base with a
-- dash and the numbers from 1 on, also where it is empty.
abbrev pub numbered : String → ℕ → String
numbered base zero = if is_empty base then "listing" else base
numbered base (suc n) = str_append base (char_cons "-" (decimal (suc n)))

-- The `n` slugs with a number, from the given one on.
abbrev pub numbers_from : String → ℕ → ℕ → List String
numbers_from base index zero = []
numbers_from base index (suc n) =
    str_append base (char_cons "-" (decimal index)) ∷ numbers_from base (index + 1) n

-- The first `n` slugs of a base.
abbrev pub earlier : String → ℕ → List String
earlier base zero = []
earlier base (suc n) = numbered base 0 ∷ numbers_from base 1 n

module _ (db : Prisma) (exclude : Option String) (rows : List Listing) where
  abbrev pub IsTaken : String → Type 0
  IsTaken slug = any (has_slug slug) rows ≡ true
