-- ===== src/Tests/Keys.antt =====
-- Histories of calls on listings, and the set of saved listings, at a concrete world.
use nestjs_learn.Prelude.{
  ◌+◌, ◌≡◌, refl, true, false, Option, none, some, List, [], ◌∷◌, String, length, arith,
}
use nestjs_learn.Prisma.Memory.{memory}
use nestjs_learn.Text.{Unicode}
use nestjs_learn.World.{World}
use nestjs_learn.Moderation.Workflow
use nestjs_learn.Listings.Types.{CreateListingDto}
use nestjs_learn.Listings.Slug.{generate_slug}
use nestjs_learn.Listings.Service.{create}
use nestjs_learn.Listings.Service.SavedSet.{
  Command, saves, unsaves, saved, listed, executed_all, specified_all, saved_set-refines,
}
use nestjs_learn.Listings.Keys.{IsKeyed}
use nestjs_learn.Listings.Keys.History.{Call, History, history-IsKeyed}
use nestjs_learn.Tests.Listings.{env, shop, ann, bob}

abbrev start : World
start = record shop { listings = [] }

abbrev chair : CreateListingDto
chair = record {
  title = "Chair";
  description = "A chair.";
  price = 5;
  original_price = none;
  condition = "good";
  category = "books";
  department = none;
  images = none;
}

-- One chair, then another one of the same title.
abbrev one : World
one = (create memory env 5 chair ann start).1

abbrev two : World
two = (create memory env 6 chair bob one).1

abbrev approved : World
approved = (Workflow.approve_listing memory 7 (memory.cuid 0) two).1

abbrev calls : History memory start approved
calls =
    History.after
      (History.after (History.after (History.start start) (Call.creates env 5 chair ann start))
        (Call.creates env 6 chair bob one))
      (Call.approves 7 (memory.cuid 0) two)

start-IsKeyed : IsKeyed memory start.listings start.issued
start-IsKeyed = record { slugs = λ s. omega arith; ids = λ id. omega arith; made = tt }

history-IsKeyed_example :
    IsKeyed memory approved.listings approved.issued
    × ((exclude : Option String) (u : Unicode) (title : String)
        → (slug : String) × (generate_slug memory exclude approved.listings u
              (length approved.listings + 2)
              title
            ≡ some slug))
history-IsKeyed_example = history-IsKeyed memory start approved calls start-IsKeyed

abbrev commands : List Command
commands = saves ann "l1" ∷ saves bob "l1" ∷ saves ann "none" ∷ unsaves bob "l1" ∷ []

saved_set-refines_example :
    saved (executed_all memory env 9 commands shop)
    ≡ specified_all (listed shop) commands (saved shop)
saved_set-refines_example = saved_set-refines memory env 9 commands shop

keeps_one :
    (specified_all (listed shop) commands (saved shop) "ann" "l1" ≡ true)
    × (specified_all (listed shop) commands (saved shop) "bob" "l1" ≡ false)
keeps_one = (refl, refl)
