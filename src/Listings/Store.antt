-- ===== src/Listings/Store.antt =====
-- src/modules/listings/listings.service.ts: the statements on the tables that the methods share, with
-- `listingInclude`, `enqueueModerationAndReload` and the removal of images from the media store.
use nestjs_learn.Prelude.{
  ℕ, ◌+◌, Bool, Option, none, some, List, [], ◌∷◌, ◌++◌, map, String, ◌==◌, ◌&&◌, if◌then◌else◌,
}
use nestjs_learn.Prisma.{Prisma, asc, desc}
use nestjs_learn.Schema.{
  User, Listing, Category, ListingImage, Favorite, ListingModerationRun, ListingModerationJob,
}
use nestjs_learn.Text.{Unicode, truthy}
use nestjs_learn.World.{
  M, Exception, database, destroyed, ◌>>=◌, ◌>>◌, pure, throw, gets, modify, require, skip, fresh,
}
use nestjs_learn.Moderation.Jobs
use nestjs_learn.Listings.Types.{NormalizedImage, ListingWithRelations}

-- What the service is given: the tables of Unicode, the parser of URLs, the test of PostgreSQL for a
-- part of a text in any case, the failures of the media store, and whether moderation is enabled.
pub record Env : Type 0 where
  pub unicode : Unicode
  pub parse_url : String → Option String
  pub contains : String → String → Bool
  pub destroy_failure : String → Option Exception
  pub moderation_enabled : Bool

abbrev pub by_id : String → Listing → Bool
by_id id l = l.id == id

abbrev pub image_of : String → ListingImage → Bool
image_of listing_id i = i.listing_id == listing_id

abbrev pub favorite_of : String → String → Favorite → Bool
favorite_of user_id listing_id f = f.user_id == user_id && f.listing_id == listing_id

abbrev pub public_id_of : ListingImage → List String → List String
public_id_of i ids = elim i.public_id [ none ↦ ids | some id ↦ if truthy id then id ∷ ids else ids ]

module _ (db : Prisma) where
  abbrev pub find_listing : String → M (Option Listing)
  find_listing id = gets (λ w. db.find_first (by_id id) [] w.listings)

  abbrev pub update_listing : String → (Listing → Listing) → M (Unit {0})
  update_listing id f =
      modify (λ w. record w { listings = (db.update_many (by_id id) f w.listings).0 })

  -- `include: this.listingInclude`. The foreign keys make the seller and the category be there.
  unfoldable pub listing_include : Listing → M ListingWithRelations
  listing_include l = do
    found_seller ← gets (λ w. db.find_first (λ (s : User). s.id == l.seller_id) [] w.users)
    seller ← require found_seller (database "seller")
    found_category ←
        gets (λ w. db.find_first (λ (c : Category). c.id == l.category_id) [] w.categories)
    category ← require found_category (database "category")
    images ← gets (λ w. db.find_many (image_of l.id) (asc (λ i. i.order) ∷ []) w.images)
    favorites ← gets (λ w. db.find_many (λ (f : Favorite). f.listing_id == l.id) [] w.favorites)
    runs ← gets (λ w.
        db.find_page (λ (r : ListingModerationRun). r.listing_id == l.id)
          (desc (λ r. r.created_at) ∷ []) 0 1 w.runs)
    job ← gets (λ w. db.find_first (λ (j : ListingModerationJob). j.listing_id == l.id) [] w.jobs)
    pure (record {
      listing = l;
      seller = seller;
      category = category;
      images = images;
      favorites = favorites;
      moderation_runs = runs;
      moderation_job = job;
    })

  -- `findUniqueOrThrow({ where: { id }, include: this.listingInclude })`.
  unfoldable pub reload : String → M ListingWithRelations
  unfolding listing_include
  reload id = do found ← find_listing id; l ← require found (database "P2025"); listing_include l

  -- `listings.map(…)` of the rows with what they include.
  unfoldable pub include_all : List Listing → M (List ListingWithRelations)
  unfolding listing_include
  include_all [] = pure List.[]
  include_all (l ∷ rest) = do
    first ← listing_include l
    others ← include_all rest
    pure (first ∷ others)

  -- The images of a listing, numbered from the given place.
  unfoldable pub create_images : String → ℕ → List NormalizedImage → M (Unit {0})
  create_images listing_id order [] = skip
  create_images listing_id order (image ∷ rest) = do
    id ← fresh db
    modify (λ w. record w {
      images =
          db.create
            (record {
              id = id;
              url = image.url;
              public_id = image.public_id;
              order = order;
              listing_id = listing_id;
            })
            w.images;
    })
    create_images listing_id (order + 1) rest

  -- `enqueue`; an identifier that `enqueue` does not use is passed over.
  unfoldable pub enqueue_moderation : ℕ → Bool → String → M (Unit {0})
  unfolding Jobs.enqueue
  enqueue_moderation now preserve_running listing_id = do
    id ← fresh db
    modify (λ w. record w { jobs = (Jobs.enqueue db listing_id preserve_running now id w.jobs).0 })

  unfoldable pub enqueue_moderation_and_reload : ℕ → String → M ListingWithRelations
  unfolding enqueue_moderation reload
  enqueue_moderation_and_reload now listing_id = do
    enqueue_moderation now Bool.false listing_id
    reload listing_id

-- `.map((image) => image.publicId).filter(Boolean)`.
unfoldable pub public_ids : List ListingImage → List String
public_ids [] = []
public_ids (i ∷ rest) = public_id_of i (public_ids rest)

-- The first failure of the calls of a `Promise.all`.
abbrev pub first_failure : (String → Option Exception) → List String → Option Exception
first_failure failure [] = none
first_failure failure (id ∷ rest) =
    let later = first_failure failure rest in elim (failure id) [ none ↦ later | some e ↦ some e ]

-- Every call is made, also where one fails.
abbrev pub destroy_images : (String → Option Exception) → List String → M (Unit {0})
destroy_images failure ids w = elim (first_failure failure ids) [
  | none ↦ skip (record w { effects = w.effects ++ map destroyed ids })
  | some e ↦ throw e (record w { effects = w.effects ++ map destroyed ids })
]
