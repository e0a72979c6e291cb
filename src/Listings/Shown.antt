-- ===== src/Listings/Shown.antt =====
-- What src/modules/users/services/users.service.ts and src/modules/admin/admin.service.ts include with
-- a listing that they show.
use nestjs_learn.Prelude.{none, List, [], ◌∷◌, ◌==◌}
use nestjs_learn.Prisma.{Prisma, asc}
use nestjs_learn.Schema.{User, Listing, Category, Favorite}
use nestjs_learn.World.{M, ◌>>=◌, pure, gets, require, database}
use nestjs_learn.Listings.Types.{ListingWithRelations}
use nestjs_learn.Listings.Store.{image_of}

module _ (db : Prisma) where
  -- The `include` that loads no runs and no job of the moderation.
  unfoldable pub shown_listing : Listing → M ListingWithRelations
  shown_listing l = do
    found_seller ← gets (λ w. db.find_first (λ (s : User). s.id == l.seller_id) [] w.users)
    seller ← require found_seller (database "seller")
    found_category ←
        gets (λ w. db.find_first (λ (c : Category). c.id == l.category_id) [] w.categories)
    category ← require found_category (database "category")
    images ← gets (λ w. db.find_many (image_of l.id) (asc (λ i. i.order) ∷ []) w.images)
    favorites ← gets (λ w. db.find_many (λ (f : Favorite). f.listing_id == l.id) [] w.favorites)
    pure (record {
      listing = l;
      seller = seller;
      category = category;
      images = images;
      favorites = favorites;
      moderation_runs = [];
      moderation_job = none;
    })

  unfoldable pub shown_listings : List Listing → M (List ListingWithRelations)
  unfolding shown_listing
  shown_listings [] = pure List.[]
  shown_listings (l ∷ rest) = do
    first ← shown_listing l
    others ← shown_listings rest
    pure (first ∷ others)
