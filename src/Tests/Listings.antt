-- ===== src/Tests/Listings.antt =====
-- Listings at a concrete world.
use nestjs_learn.Prelude.{
  ◌≡◌, ◌≢◌, refl, ◌↔◌, ◌∙◌, true, none, some, List, [], ◌∷◌, String, arith, All, ◌≤◌, length,
  map_where, Memᴰ, ◌+◌, count, eq_iff, sym,
}
use nestjs_learn.Prisma.Memory.{memory}
use nestjs_learn.Schema.{Listing, ListingModerationJob, ApprovalStatus, Condition, ListingStatus}
use nestjs_learn.Text.{Unicode, trim}
use nestjs_learn.World.{World, ok, err, forbidden}
use nestjs_learn.Listings.Types.{
  AuthUser, ListingWithRelations, FrontendListing, ListingQueryDto, UpdateListingDto,
  ListingImageInput, NormalizedImage, newest, plain_url, image_object,
}
use nestjs_learn.Pagination.{Paged}
use nestjs_learn.Listings.Query.{
  build_list_where, matches, approval_filter, find_category_ids, build_sort,
}
use nestjs_learn.Listings.Store.{Env, listing_include, include_all, by_id, favorite_of}
use nestjs_learn.Listings.Service.{
  list_page, find_one, find_all, save_listing, unsave_listing, update_status, remove, is_visible,
  with_view,
}
use nestjs_learn.Listings.Mapper.{
  map_listing_to_frontend, map_condition_from_frontend, map_status_from_frontend,
  condition_to_frontend, status_to_frontend, map_condition_from_frontend_iff,
}
use nestjs_learn.Listings.Update.{update}
use nestjs_learn.Listings.Update.Remoderation.{Waits, update-Waits_again}
use nestjs_learn.Listings.Service.Visibility.{find_one-visible, find_all-approved}
use nestjs_learn.Listings.Service.Favorites.{mine, save_listing_once}
use nestjs_learn.Listings.Ownership.{foreign_user_changes_nothing}
use nestjs_learn.Listings.Input.{normalize_image_inputs}
use nestjs_learn.Listings.Images.{HasHttp, normalize_image_inputs-HasHttp}
use nestjs_learn.Listings.Slug.{generate_slug, is_excluded}
use nestjs_learn.Listings.Slug.Search.{HasSlugs, generate_slug_total}
use nestjs_learn.Listings.Slug.Safe.{IsSlug, generate_slug-IsSlug}
use nestjs_learn.Listings.Slug.Decimal.{decimal}
use nestjs_learn.Moderation.Jobs.{new_job, get_status_for_listing}
use nestjs_learn.Moderation.Types.{ModerationJobStatusView}
use nestjs_learn.Tests.Worlds.{empty_world, books, novel, person}

-- Texts that are in lower case and decomposed already.
abbrev plain_text : Unicode
plain_text = record { to_lower = λ s. s; to_upper = λ s. s; nfd = λ s. s }

abbrev pub env : Env
env = record {
  unicode = plain_text;
  parse_url = λ s. some "https:";
  contains = λ s t. true;
  destroy_failure = λ s. none;
  moderation_enabled = true;
}

abbrev approved_novel : Listing
approved_novel = record novel { approval_status = ApprovalStatus.approved }

abbrev pub shop : World
shop = record empty_world {
  users = person "ann" "ann@x" true ∷ person "bob" "bob@x" true ∷ [];
  categories = books ∷ [];
  listings = approved_novel ∷ [];
}

abbrev pub ann : AuthUser
ann = record { user_id = "ann"; role = "USER" }

abbrev pub bob : AuthUser
bob = record { user_id = "bob"; role = "USER" }

abbrev everything : ListingQueryDto
everything = record {
  search = none;
  category = none;
  categories = none;
  condition = none;
  conditions = none;
  department = none;
  departments = none;
  status = none;
  approval_status = none;
  min_price = none;
  max_price = none;
  page = 1;
  limit = 20;
  sort_by = newest;
}

abbrev retitled : UpdateListingDto
retitled = record {
  title = some "A long novel";
  description = none;
  price = none;
  original_price = none;
  condition = none;
  status = none;
  department = none;
  category = none;
  images = none;
}

ann_is_not_bob : ◌≢◌ {A = String} "ann" "bob"
ann_is_not_bob = ground (arith, eq_iff "ann" "bob")

abbrev novel_row : ListingWithRelations
novel_row = record {
  listing = approved_novel;
  seller = person "ann" "ann@x" true;
  category = books;
  images = [];
  favorites = [];
  moderation_runs = [];
  moderation_job = none;
}

abbrev novel_seen : FrontendListing
novel_seen =
    map_listing_to_frontend
      (record novel_row { listing = record approved_novel { view_count = 1 } }) none

finds_novel :
    find_one memory env 20 "l1" none shop
    ≡ (ok novel_seen, record shop { listings = with_view 20 approved_novel ∷ [] })
unfolding find_one listing_include memory
finds_novel = refl

find_one-visible_example :
    (l : Listing) × Memᴰ l shop.listings
    × (l.id ≡ "l1")
    × (is_visible l none ≡ true)
    × (novel_seen.views ≡ l.view_count + 1)
    × (record shop { listings = with_view 20 approved_novel ∷ [] }
        ≡ record shop { listings = map_where (by_id "l1") (with_view 20) shop.listings })
find_one-visible_example =
    find_one-visible memory env 20 shop
      (record shop { listings = with_view 20 approved_novel ∷ [] }) none "l1" novel_seen finds_novel

abbrev novel_page : Paged FrontendListing
novel_page = record {
  data_rows = map_listing_to_frontend novel_row none ∷ [];
  meta = record { total = 1; page = 1; limit = 20; total_pages = 1 };
}

lists_novel : find_all memory env 20 everything none shop ≡ (ok novel_page, shop)
unfolding find_all list_page build_list_where include_all listing_include matches approval_filter
    find_category_ids build_sort memory
lists_novel = refl

find_all-approved_example : All (λ v. v.approval_status ≡ "approved") novel_page.data_rows
find_all-approved_example =
    find_all-approved memory env 20 shop shop none everything novel_page refl lists_novel

save_listing_once_example :
    ((save_listing memory env 20 "l1" bob shop).0 ≡ ok true)
    × ((save_listing memory env 30 "l1" bob (save_listing memory env 20 "l1" bob shop).1).1
        ≡ (save_listing memory env 20 "l1" bob shop).1)
    × (count
          (mine memory env "l1" bob)
          (unsave_listing memory env 30 "l1" bob
            (save_listing memory env 20 "l1" bob shop).1).1.favorites
        ≡ 0)
    × (count
          (favorite_of "ann" "l1")
          (unsave_listing memory env 30 "l1" bob
            (save_listing memory env 20 "l1" bob shop).1).1.favorites
        ≡ count (favorite_of "ann" "l1") shop.favorites)
unfolding memory
save_listing_once_example =
    save_listing_once memory env "l1" bob 20 30 ann shop approved_novel refl
      (λ e. ann_is_not_bob (sym e))

foreign_user_changes_nothing_example :
    (update memory env 20 "l1" retitled bob shop
      ≡ (err (forbidden "You do not have permission for this listing"), shop))
    × (update_status memory env 20 "l1" "sold" bob shop
        ≡ (err (forbidden "You do not have permission for this listing"), shop))
    × (remove memory env 20 "l1" bob shop
        ≡ (err (forbidden "You do not have permission for this listing"), shop))
unfolding memory
foreign_user_changes_nothing_example =
    foreign_user_changes_nothing memory env 20 "l1" "sold" retitled bob shop approved_novel refl
      refl ann_is_not_bob

abbrev new_novel : Listing
new_novel = record approved_novel {
  title = "A long novel";
  slug = "long-novel";
  approval_status = ApprovalStatus.pending;
  updated_at = 20;
}

abbrev queued_job : ListingModerationJob
queued_job = new_job (memory.cuid 0) "l1" 20

abbrev updated_shop : World
updated_shop = record shop { listings = new_novel ∷ []; jobs = queued_job ∷ []; issued = 1 }

abbrev novel_updated : FrontendListing
novel_updated =
    map_listing_to_frontend
      (record novel_row { listing = new_novel; moderation_job = some queued_job }) (some "ann")

updates_novel : update memory env 20 "l1" retitled ann shop ≡ (ok novel_updated, updated_shop)
unfolding update memory trim generate_slug
updates_novel = refl

update-Waits_again_example :
    Waits "l1" updated_shop.listings
    × (get_status_for_listing memory "l1" updated_shop.jobs ≡ some ModerationJobStatusView.pending)
unfolding memory trim
update-Waits_again_example =
    update-Waits_again memory env 20 "l1" retitled ann shop updated_shop approved_novel
      novel_updated refl refl refl updates_novel

map_condition_from_frontend_iff_example :
    (map_condition_from_frontend plain_text " good " ≡ some Condition.good
      ↔ plain_text.to_lower (trim " good ") ≡ condition_to_frontend Condition.good)
    × (map_status_from_frontend plain_text " good " ≡ some ListingStatus.sold
        ↔ plain_text.to_lower (trim " good ") ≡ status_to_frontend ListingStatus.sold)
map_condition_from_frontend_iff_example =
    map_condition_from_frontend_iff plain_text " good " Condition.good ListingStatus.sold

abbrev two_images : List ListingImageInput
two_images = plain_url " https://a/b.png" ∷ image_object "https://a/c.png" (some " c ") ∷ []

abbrev normalized : List NormalizedImage
normalized =
    record { url = "https://a/b.png"; public_id = none }
    ∷ record { url = "https://a/c.png"; public_id = some "c" }
    ∷ []

takes_two : normalize_image_inputs env.parse_url (some two_images) ≡ ok normalized
unfolding normalize_image_inputs trim
takes_two = refl

normalize_image_inputs-HasHttp_example :
    (length normalized ≡ length two_images)
    × (length normalized ≤ 5)
    × All (λ i. HasHttp env.parse_url i.url) normalized
normalize_image_inputs-HasHttp_example =
    normalize_image_inputs-HasHttp env.parse_url two_images normalized takes_two

abbrev taken : List Listing
taken = record novel { slug = "long-novel" } ∷ []

slug_of_novel : generate_slug memory none taken plain_text 3 "A long novel" ≡ some "long-novel-1"
unfolding generate_slug memory decimal trim
slug_of_novel = refl

taken-HasSlugs : HasSlugs taken
taken-HasSlugs a b (Memᴰ.head e) (Memᴰ.head e') same = e ∙ sym e'
taken-HasSlugs a b (Memᴰ.head e) (Memᴰ.tail n) same = elim n [ ]
taken-HasSlugs a b (Memᴰ.tail m) n same = elim m [ ]

generate_slug_total_example :
    (slug : String) × (generate_slug memory none taken plain_text 3 "A long novel" ≡ some slug)
    × All (λ r. r.slug ≡ slug → is_excluded none r.id ≡ true) taken
generate_slug_total_example =
    generate_slug_total memory none taken plain_text 3 "A long novel" taken-HasSlugs (omega arith)

generate_slug-IsSlug_example : IsSlug "long-novel-1"
generate_slug-IsSlug_example =
    generate_slug-IsSlug memory none taken plain_text 3 "A long novel" "long-novel-1" slug_of_novel

abbrev listing_taken : List Listing
listing_taken = record novel { slug = "listing" } ∷ []

slug_of_nothing : generate_slug memory none listing_taken plain_text 3 "???" ≡ some "-1"
unfolding generate_slug memory decimal trim
slug_of_nothing = refl
