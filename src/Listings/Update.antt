-- ===== src/Listings/Update.antt =====
-- src/modules/listings/listings.service.ts: `update`, with `shouldRemoderate`.
pub mod Remoderation
use nestjs_learn.Prelude.{
  ℕ, ◌+◌, Bool, true, false, not, ◌&&◌, ◌||◌, Option, none, some, List, [], ◌∷◌, map, String,
  length, any, keep, ◌==◌, if◌then◌else◌,
}
use nestjs_learn.Prisma.{Prisma}
use nestjs_learn.Schema.{
  Listing, Category, ListingStatus, ApprovalStatus, Department, Condition, ListingImage,
  same_department,
}
use nestjs_learn.Text.{Unicode, trim, truthy}
use nestjs_learn.World.{
  World, M, Result, ok, err, bad_request, not_found, plain, ◌>>=◌, ◌>>◌, pure, lift, gets, modify,
  require, throw_if, skip, transaction, when,
}
use nestjs_learn.Listings.Types.{
  AuthUser, UpdateListingDto, FrontendListing, ListingWithRelations, NormalizedImage,
}
use nestjs_learn.Listings.Mapper.{map_listing_to_frontend}
use nestjs_learn.Listings.Input.{
  assert_can_mutate, then_result, parse_condition, parse_status, parse_department,
  normalize_image_inputs,
}
use nestjs_learn.Listings.Query.{present, present_trimmed, parse_present, has_department}
use nestjs_learn.Listings.Store.{
  Env, find_listing, by_id, update_listing, image_of, reload, create_images,
  enqueue_moderation_and_reload, public_ids, destroy_images,
}
use nestjs_learn.Listings.Service.{slug_for}

-- `value !== undefined && value.trim() !== old`.
abbrev pub differs : Option String → String → Bool
differs none old = false
differs (some value) old = not (trim value == old)

-- `payload.category?.trim() && nextCategory?.id !== existing.categoryId`.
abbrev pub category_differs : Option String → Option Category → String → Bool
category_differs none next old = false
category_differs (some c) next old =
    let other : Bool = elim next [ none ↦ true | some n ↦ not (n.id == old) ] in
    if truthy (trim c) then other else false

-- The last test, on the department; the parser throws on an unknown one.
abbrev pub department_differs : Unicode → Option String → Option Department → Result Bool
department_differs u none old = ok false
department_differs u (some d) old =
    if truthy (trim d)
    then then_result (parse_department u d) (λ next. ok (not (has_department old next)))
    else ok false

unfoldable pub should_remoderate :
    Unicode → Bool → Listing → UpdateListingDto → Option Category → Result Bool
unfolding parse_department
should_remoderate u enabled existing payload next_category =
    if not enabled
    then ok false
    else if differs payload.title existing.title
    then ok true
    else if differs payload.description existing.description
    then ok true
    else if category_differs payload.category next_category existing.category_id
    then ok true
    else department_differs u payload.department existing.department

-- The `ListingUpdateInput`: what is undefined stays.
pub record ListingUpdate : Type 0 where
  pub title : Option String
  pub description : Option String
  pub price : Option ℕ
  pub original_price : Option ℕ
  pub condition : Option Condition
  pub status : Option ListingStatus
  pub department : Option Department
  pub category_id : Option String
  pub approval_status : Option ApprovalStatus
  pub slug : Option String

abbrev pub set_or : {A : Type 0} → Option A → A → A
set_or none old = old
set_or (some new) old = new

abbrev pub set_optional : {A : Type 0} → Option A → Option A → Option A
set_optional none old = old
set_optional (some new) old = some new

unfoldable pub apply_update : ListingUpdate → ℕ → Listing → Listing
apply_update d now l = record l {
  title = set_or d.title l.title;
  description = set_or d.description l.description;
  price = set_or d.price l.price;
  original_price = set_optional d.original_price l.original_price;
  condition = set_or d.condition l.condition;
  status = set_or d.status l.status;
  department = set_optional d.department l.department;
  category_id = set_or d.category_id l.category_id;
  approval_status = set_or d.approval_status l.approval_status;
  slug = set_or d.slug l.slug;
  updated_at = now;
}

-- `payload.title?.trim()` as data.
abbrev pub trimmed : Option String → Option String
trimmed none = none
trimmed (some s) = some (trim s)

-- Whether one of the next images has the identifier or the URL of an image.
abbrev pub stays : List NormalizedImage → ListingImage → Bool
stays next image =
    any
      (λ (n : NormalizedImage).
        elim n.public_id [
          | none ↦ false
          | some id ↦ elim image.public_id [ none ↦ false | some old ↦ id == old ]
        ]
        || n.url == image.url)
      next

unfoldable pub removed_public_ids : Option (List NormalizedImage) → List ListingImage → List String
unfolding public_ids
removed_public_ids none images = []
removed_public_ids (some next) images = public_ids (keep (λ i. not (stays next i)) images)

module _ (db : Prisma) (env : Env) (now : ℕ) where
  abbrev pub find_category : Option String → M (Option Category)
  find_category none w = pure Option.none w
  find_category (some slug) w =
      pure (db.find_first (λ (c : Category). c.slug == slug) [] w.categories) w

  -- `payload.category?.trim().toLowerCase()`, where it is not empty.
  abbrev pub category_slug : Option String → Option String
  category_slug none = none
  category_slug (some c) =
      let slug = env.unicode.to_lower (trim c) in if truthy slug then some slug else none

  abbrev pub is_unknown : Option String → Option Category → Bool
  is_unknown none category = false
  is_unknown (some slug) category = elim category [ none ↦ true | some c ↦ false ]

  abbrev pub new_slug : Option String → String → M (Option String)
  new_slug none id w = pure Option.none w
  new_slug (some title) id w = (do slug ← slug_for db env now (some id) title; pure (some slug)) w

  abbrev pub titled : Option String → Option String
  titled none = none
  titled (some t) = if truthy (trim t) then some t else none

  abbrev pub normalized_images : UpdateListingDto → Result (Option (List NormalizedImage))
  normalized_images payload = elim payload.images [
    | none ↦ ok none
    | some inputs ↦
        then_result (normalize_image_inputs env.parse_url (some inputs)) (λ next. ok (some next))
  ]

  -- The `data` of the update. The status of the approval is set last but one, the slug last.
  unfoldable pub update_data :
      Listing → UpdateListingDto → Option Category → M (ListingUpdate × Bool)
  unfolding parse_condition parse_status parse_department should_remoderate
  update_data existing payload category = do
    condition ← lift (parse_present (parse_condition env.unicode) (present payload.condition))
    status ← lift (parse_present (parse_status env.unicode) (present payload.status))
    department ← lift (parse_present (parse_department env.unicode) (present payload.department))
    remoderates ←
        lift (should_remoderate env.unicode env.moderation_enabled existing payload category)
    slug ← new_slug (titled payload.title) existing.id
    let data_row : ListingUpdate = record {
      title = trimmed payload.title;
      description = trimmed payload.description;
      price = payload.price;
      original_price = payload.original_price;
      condition = condition;
      status = status;
      department = department;
      category_id = elim category [ none ↦ none | some c ↦ some c.id ];
      approval_status = if remoderates then some ApprovalStatus.pending else none;
      slug = slug;
    }
    pure (data_row, remoderates)

  abbrev pub replace_images : String → List NormalizedImage → M (Unit {0})
  replace_images id next = do
    modify (λ w. record w { images = db.delete_many (image_of id) w.images })
    create_images db id 0 next

  unfoldable pub write_update :
      String → ListingUpdate → Option (List NormalizedImage) → M ListingWithRelations
  unfolding apply_update create_images reload
  write_update id data_row none = do update_listing db id (apply_update data_row now); reload db id
  write_update id data_row (some next) =
      transaction
        (do update_listing db id (apply_update data_row now); replace_images id next; reload db id)

  -- `update` from the transaction on.
  unfoldable pub publish_update :
      String
      → List ListingImage
      → AuthUser
      → ListingUpdate
      → Bool
      → Option (List NormalizedImage)
      → M FrontendListing
  unfolding removed_public_ids write_update enqueue_moderation_and_reload map_listing_to_frontend
  publish_update id images auth_user data_row remoderates next = do
    listing ← write_update id data_row next
    destroy_images env.destroy_failure (removed_public_ids next images)
    final ←
        (if remoderates && env.moderation_enabled
          then enqueue_moderation_and_reload db now id
          else pure listing)
    pure (map_listing_to_frontend final (some auth_user.user_id))

  -- `update` from its `data` on.
  unfoldable pub commit_update :
      String
      → Listing
      → List ListingImage
      → UpdateListingDto
      → Option Category
      → AuthUser
      → M FrontendListing
  unfolding update_data normalize_image_inputs publish_update
  commit_update id existing images payload category auth_user = do
    (data_row, remoderates) ← update_data existing payload category
    next ← lift (normalized_images payload)
    publish_update id images auth_user data_row remoderates next

  unfoldable pub update : String → UpdateListingDto → AuthUser → M FrontendListing
  unfolding assert_can_mutate commit_update
  update id payload auth_user = do
    found ← find_listing db id
    existing ← require found (not_found "Listing not found")
    images ← gets (λ w. db.find_many (image_of id) [] w.images)
    lift (assert_can_mutate existing.seller_id auth_user)
    let slug : Option String = category_slug payload.category
    category ← find_category slug
    throw_if (is_unknown slug category) (bad_request "Invalid category")
    commit_update id existing images payload category auth_user
