-- ===== src/Users/OwnListings.antt =====
-- src/modules/users/services/users.service.ts: `myListings` and `mySavedListings`. The test of
-- PostgreSQL that a text contains another one in any case is a parameter.
use nestjs_learn.Prelude.{◌-◌, ◌*◌, Bool, ◌&&◌, Option, none, some, [], ◌∷◌, map, String, any, ◌==◌}
use nestjs_learn.Prisma.{Prisma, desc}
use nestjs_learn.Schema.{Listing, Category, ApprovalStatus}
use nestjs_learn.Text.{Unicode}
use nestjs_learn.World.{
  World, M, Result, ok, err, Exception, bad_request, ◌>>=◌, pure, lift, gets, require,
}
use nestjs_learn.Pagination.{Paging, Paged, meta_of}
use nestjs_learn.Listings.Types.{ListingQueryDto, FrontendListing}
use nestjs_learn.Listings.Mapper.{
  map_listing_to_frontend, map_status_from_frontend, map_condition_from_frontend,
}
use nestjs_learn.Listings.Query.{ListingWhere, matches, present, present_trimmed, as_list}
use nestjs_learn.Listings.Store.{favorite_of}
use nestjs_learn.Listings.Shown.{shown_listings}

-- `if (text) { try { … map(text) } catch { throw refusal } }`.
abbrev pub parse_given :
    {A : Type 0} → (String → Option A) → Exception → Option String → Result (Option A)
parse_given read refusal none = ok none
parse_given read refusal (some s) = elim (read s) [ none ↦ err refusal | some a ↦ ok (some a) ]

module _ (db : Prisma) (contains : String → String → Bool) where
  -- The transaction of a `count` and a `findMany`, which both methods end in.
  unfoldable pub page_of :
      (World → Listing → Bool) → ListingQueryDto → String → M (Paged FrontendListing)
  unfolding shown_listings map_listing_to_frontend
  page_of test query user_id = do
    let paging : Paging = record { page = query.page; limit = query.limit }
    total ← gets (λ w. db.count_rows (test w) w.listings)
    rows ← gets (λ w.
        db.find_page (test w) (desc (λ (l : Listing). l.created_at) ∷ [])
          ((query.page - 1) * query.limit) query.limit w.listings)
    listings ← shown_listings db rows
    pure (record {
      data_rows = map (λ l. map_listing_to_frontend l (some user_id)) listings;
      meta = meta_of total paging;
    })

  -- `if (query.category?.trim())`.
  unfoldable pub own_category : Unicode → Option String → M (Option String)
  own_category u none = pure Option.none
  own_category u (some slug) = do
    found ← gets (λ w. db.find_first (λ (c : Category). c.slug == u.to_lower slug) [] w.categories)
    category ← require found (bad_request "Invalid category")
    pure (some category.id)

  unfoldable pub my_listings : Unicode → String → ListingQueryDto → M (Paged FrontendListing)
  unfolding map_status_from_frontend map_condition_from_frontend own_category matches page_of
  my_listings u user_id query = do
    status ← lift (
        parse_given (map_status_from_frontend u) (bad_request "Invalid status")
          (present query.status))
    condition ← lift (
        parse_given (map_condition_from_frontend u) (bad_request "Invalid condition")
          (present query.condition))
    category_id ← own_category u (present_trimmed query.category)
    let filter : ListingWhere = record {
      approval_status = none;
      search = present_trimmed query.search;
      category_ids = as_list category_id;
      conditions = as_list condition;
      status = status;
      departments = [];
      min_price = none;
      max_price = none;
      seller_id = some user_id;
    }
    page_of (λ w. matches contains filter) query user_id

  abbrev pub is_saved_listing : ListingWhere → String → World → Listing → Bool
  is_saved_listing filter user_id w l =
      matches contains filter l && any (favorite_of user_id l.id) w.favorites

  unfoldable pub my_saved_listings : String → ListingQueryDto → M (Paged FrontendListing)
  unfolding matches page_of
  my_saved_listings user_id query = do
    let filter : ListingWhere = record {
      approval_status = some ApprovalStatus.approved;
      search = present_trimmed query.search;
      category_ids = [];
      conditions = [];
      status = none;
      departments = [];
      min_price = none;
      max_price = none;
      seller_id = none;
    }
    page_of (is_saved_listing filter user_id) query user_id
