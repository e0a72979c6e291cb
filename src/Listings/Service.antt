-- ===== src/Listings/Service.antt =====
-- src/modules/listings/listings.service.ts: the methods but `update`, which is in Listings.Update.
-- Each takes the reading of the clock, which Prisma's `@updatedAt` takes too.
pub mod Visibility
pub mod Favorites
pub mod SavedSet
use nestjs_learn.Prelude.{
  ℕ, ◌+◌, ◌-◌, ◌*◌, Bool, true, false, not, ◌&&◌, ◌||◌, Option, none, some, List, [], ◌∷◌, map,
  String, length, ◌==◌, if◌then◌else◌,
}
use nestjs_learn.Prisma.{Prisma}
use nestjs_learn.Schema.{
  Listing, Category, ListingStatus, ApprovalStatus, Department, Condition, Favorite, Conversation,
  Report, ListingModerationRun, ListingModerationJob, is_approved,
}
use nestjs_learn.Text.{Unicode, trim, truthy}
use nestjs_learn.World.{
  World, M, Result, ok, Exception, bad_request, not_found, plain, ◌>>=◌, ◌>>◌, pure, throw, lift,
  gets, modify, require, throw_if, skip, fresh,
}
use nestjs_learn.Pagination.{Paging, Paged, meta_of}
use nestjs_learn.Listings.Types.{
  AuthUser, CreateListingDto, ListingQueryDto, FrontendListing, ListingWithRelations,
}
use nestjs_learn.Listings.Mapper.{map_listing_to_frontend, map_option}
use nestjs_learn.Listings.Input.{
  assert_can_mutate, is_admin, then_result, parse_condition, parse_status, parse_department,
  normalize_image_inputs,
}
use nestjs_learn.Listings.Query.{
  ListingWhere, matches, present, is_admin_viewer, build_list_where, build_sort,
}
use nestjs_learn.Listings.Store.{
  Env, find_listing, by_id, update_listing, image_of, favorite_of, listing_include, reload,
  include_all, create_images, enqueue_moderation_and_reload, public_ids, destroy_images,
}
use nestjs_learn.Listings.Slug.{generate_slug}

abbrev pub viewer_id : Option AuthUser → Option String
viewer_id viewer = map_option (λ (a : AuthUser). a.user_id) viewer

abbrev pub is_viewer : String → Option AuthUser → Bool
is_viewer id none = false
is_viewer id (some a) = a.user_id == id

-- The negation of the condition under which `findOne` denies that the listing is there.
abbrev pub is_visible : Listing → Option AuthUser → Bool
is_visible l viewer =
    is_approved l.approval_status || is_viewer l.seller_id viewer || is_admin_viewer viewer

-- The where clause of `findBySeller`: the sellers see their listings whatever the approval.
abbrev pub seller_where : String → ListingQueryDto → Option AuthUser → ListingWhere → ListingWhere
seller_where seller_id query viewer w =
    let own = record w { approval_status = none; seller_id = some seller_id } in
    let other = record w { seller_id = some seller_id } in
    elim (present query.approval_status) [
      | none ↦ if is_viewer seller_id viewer then own else other
      | some s ↦ other
    ]

abbrev pub with_view : ℕ → Listing → Listing
with_view now l = record l { view_count = l.view_count + 1; updated_at = now }

abbrev pub with_status : ListingStatus → ℕ → Listing → Listing
with_status status now l = record l { status = status; updated_at = now }

abbrev pub detached : Conversation → Conversation
detached c = record c { listing_id = none }

abbrev pub about : String → Conversation → Bool
about id c = elim c.listing_id [ none ↦ false | some l ↦ l == id ]

-- `parseDepartment` of a text that is neither undefined nor empty.
abbrev pub parse_optional_department : Unicode → Option String → Result (Option Department)
parse_optional_department u none = ok none
parse_optional_department u (some d) =
    if truthy d then then_result (parse_department u d) (λ x. ok (some x)) else ok none

module _ (db : Prisma) (env : Env) (now : ℕ) where
  -- The rounds of the search for a slug are as many as it needs.
  abbrev pub slug_for : Option String → String → M String
  slug_for exclude title = do
    slug ← gets (λ w. generate_slug db exclude w.listings env.unicode (length w.listings + 2) title)
    require slug (plain "out of fuel")

  unfoldable pub create : CreateListingDto → AuthUser → M FrontendListing
  unfolding generate_slug normalize_image_inputs parse_condition parse_department create_images
      reload enqueue_moderation_and_reload map_listing_to_frontend
  create payload auth_user = do
    let category_slug = env.unicode.to_lower (trim payload.category)
    found ← gets (λ w. db.find_first (λ (c : Category). c.slug == category_slug) [] w.categories)
    category ← require found (bad_request "Invalid category")
    slug ← slug_for none payload.title
    images ← lift (normalize_image_inputs env.parse_url payload.images)
    condition ← lift (parse_condition env.unicode payload.condition)
    department ← lift (parse_optional_department env.unicode payload.department)
    id ← fresh db
    modify (λ w. record w {
      listings =
          db.create
            (record {
              id = id;
              title = trim payload.title;
              description = trim payload.description;
              price = payload.price;
              original_price = payload.original_price;
              condition = condition;
              status = ListingStatus.selling;
              approval_status = ApprovalStatus.pending;
              department = department;
              slug = slug;
              view_count = 0;
              seller_id = auth_user.user_id;
              category_id = category.id;
              created_at = now;
              updated_at = now;
            })
            w.listings;
    })
    create_images db id 0 images
    listing ←
        (if env.moderation_enabled then enqueue_moderation_and_reload db now id else reload db id)
    pure (map_listing_to_frontend listing (some auth_user.user_id))

  -- The transaction of a `count` and a `findMany` under a where clause.
  unfoldable pub list_page :
      ListingWhere → ListingQueryDto → Option AuthUser → M (Paged FrontendListing)
  unfolding matches build_sort include_all map_listing_to_frontend
  list_page filter query viewer = do
    let paging : Paging = record { page = query.page; limit = query.limit }
    total ← gets (λ w. db.count_rows (matches env.contains filter) w.listings)
    rows ← gets (λ w.
        db.find_page (matches env.contains filter) (build_sort query.sort_by)
          ((query.page - 1) * query.limit) query.limit w.listings)
    listings ← include_all db rows
    pure (record {
      data_rows = map (λ l. map_listing_to_frontend l (viewer_id viewer)) listings;
      meta = meta_of total paging;
    })

  unfoldable pub find_all : ListingQueryDto → Option AuthUser → M (Paged FrontendListing)
  unfolding build_list_where list_page
  find_all query viewer = do
    filter ← build_list_where db env.unicode query viewer
    list_page filter query viewer

  unfoldable pub find_by_seller :
      String → ListingQueryDto → Option AuthUser → M (Paged FrontendListing)
  unfolding build_list_where list_page
  find_by_seller seller_id query viewer = do
    filter ← build_list_where db env.unicode query viewer
    list_page (seller_where seller_id query viewer filter) query viewer

  unfoldable pub find_one : String → Option AuthUser → M FrontendListing
  unfolding listing_include map_listing_to_frontend
  find_one id viewer = do
    found ← find_listing db id
    l ← require found (not_found "Listing not found")
    listing ← listing_include db l
    throw_if (not (is_visible l viewer)) (not_found "Listing not found")
    update_listing db id (with_view now)
    pure (
        map_listing_to_frontend
          (record listing { listing = record l { view_count = l.view_count + 1 } })
          (viewer_id viewer))

  unfoldable pub update_status : String → String → AuthUser → M FrontendListing
  unfolding assert_can_mutate parse_status reload map_listing_to_frontend
  update_status id status auth_user = do
    found ← find_listing db id
    existing ← require found (not_found "Listing not found")
    lift (assert_can_mutate existing.seller_id auth_user)
    next ← lift (parse_status env.unicode status)
    update_listing db id (with_status next now)
    listing ← reload db id
    pure (map_listing_to_frontend listing (some auth_user.user_id))

  -- The rows that go with a listing, and the conversations that lose it, by the schema.
  abbrev pub delete_listing : String → M (Unit {0})
  delete_listing id = modify (λ w. record w {
    listings = db.delete_many (by_id id) w.listings;
    images = db.delete_many (image_of id) w.images;
    favorites = db.delete_many (λ (f : Favorite). f.listing_id == id) w.favorites;
    reports = db.delete_many (λ (r : Report). r.listing_id == id) w.reports;
    runs = db.delete_many (λ (r : ListingModerationRun). r.listing_id == id) w.runs;
    jobs = db.delete_many (λ (j : ListingModerationJob). j.listing_id == id) w.jobs;
    conversations = (db.update_many (about id) detached w.conversations).0;
  })

  unfoldable pub remove : String → AuthUser → M String
  unfolding assert_can_mutate public_ids
  remove id auth_user = do
    found ← find_listing db id
    existing ← require found (not_found "Listing not found")
    images ← gets (λ w. db.find_many (image_of id) [] w.images)
    lift (assert_can_mutate existing.seller_id auth_user)
    destroy_images env.destroy_failure (public_ids images)
    delete_listing id
    pure "Listing deleted successfully"

  -- `upsert` with an empty update.
  unfoldable pub save_listing : String → AuthUser → M Bool
  save_listing id auth_user = do
    found ← find_listing db id
    listing ← require found (not_found "Listing not found")
    existing ← gets (λ w. db.find_first (favorite_of auth_user.user_id id) [] w.favorites)
    elim existing [
      | none ↦ do
        new_id ← fresh db
        modify (λ w. record w {
          favorites =
              db.create
                (record {
                  id = new_id;
                  user_id = auth_user.user_id;
                  listing_id = id;
                  created_at = now;
                })
                w.favorites;
        })
      | some f ↦ skip
    ]
    pure true

  unfoldable pub unsave_listing : String → AuthUser → M Bool
  unsave_listing id auth_user = do
    modify (λ w. record w {
      favorites = db.delete_many (favorite_of auth_user.user_id id) w.favorites;
    })
    pure false
