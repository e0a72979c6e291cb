-- ===== src/Listings/Mapper.antt =====
-- src/modules/listings/listing.mapper.ts. An error of a mapper is `none`: every caller replaces it.
use nestjs_learn.Prelude.{
  ◌≡◌, refl, Bool, false, ◌↔◌, Option, none, some, List, [], ◌∷◌, map, String, length, any, ltb,
  ◌==◌, if◌then◌else◌, arith, eq_iff,
}
use nestjs_learn.Schema.{
  Condition, ListingStatus, ApprovalStatus, ModerationRiskLevel, ModerationRecommendedAction,
  ModerationJobStatus, ListingModerationRun, ListingModerationJob,
}
use nestjs_learn.Text.{Unicode, trim, truthy}
use nestjs_learn.Users.Mapper.{map_department_to_frontend, map_user_to_frontend}
use nestjs_learn.Listings.Types.{ListingWithRelations, FrontendListing, LatestModeration}

abbrev pub condition_to_frontend : Condition → String
condition_to_frontend Condition.new = "new"
condition_to_frontend Condition.like_new = "like-new"
condition_to_frontend Condition.good = "good"
condition_to_frontend Condition.fair = "fair"

abbrev pub status_to_frontend : ListingStatus → String
status_to_frontend ListingStatus.selling = "selling"
status_to_frontend ListingStatus.reserved = "reserved"
status_to_frontend ListingStatus.sold = "sold"

abbrev pub approval_to_frontend : ApprovalStatus → String
approval_to_frontend ApprovalStatus.pending = "pending"
approval_to_frontend ApprovalStatus.approved = "approved"
approval_to_frontend ApprovalStatus.rejected = "rejected"

-- `Object.entries(table).find(([, value]) => value === normalized)`.
abbrev pub find_entry : {A : Type 0} → (A → String) → List A → String → Option A
find_entry value [] normalized = none
find_entry value (a ∷ rest) normalized =
    let later = find_entry value rest normalized in if value a == normalized then some a else later

abbrev pub conditions : List Condition
conditions = Condition.new ∷ Condition.like_new ∷ Condition.good ∷ Condition.fair ∷ []

abbrev pub statuses : List ListingStatus
statuses = ListingStatus.selling ∷ ListingStatus.reserved ∷ ListingStatus.sold ∷ []

unfoldable pub map_condition_from_frontend : Unicode → String → Option Condition
map_condition_from_frontend u value =
    find_entry condition_to_frontend conditions (u.to_lower (trim value))

unfoldable pub map_status_from_frontend : Unicode → String → Option ListingStatus
map_status_from_frontend u value = find_entry status_to_frontend statuses (u.to_lower (trim value))

-- `Array.prototype.sort`, which is stable, by a test that tells whether its first argument must
-- stand before the second.
abbrev pub insert_by : {A : Type 0} → (A → A → Bool) → A → List A → List A
insert_by lt x [] = x ∷ []
insert_by lt x (y ∷ ys) = let rest = insert_by lt x ys in if lt y x then y ∷ rest else x ∷ y ∷ ys

abbrev pub sort_by : {A : Type 0} → (A → A → Bool) → List A → List A
sort_by lt [] = []
sort_by lt (x ∷ xs) = insert_by lt x (sort_by lt xs)

abbrev pub first_of : {A : Type 0} → List A → Option A
first_of [] = none
first_of (x ∷ xs) = some x

-- `toLowerCase()` of the names of the enumerations.
abbrev pub lower_risk : ModerationRiskLevel → String
lower_risk ModerationRiskLevel.low = "low"
lower_risk ModerationRiskLevel.medium = "medium"
lower_risk ModerationRiskLevel.high = "high"
lower_risk ModerationRiskLevel.error = "error"

abbrev pub lower_action : ModerationRecommendedAction → String
lower_action ModerationRecommendedAction.approve = "approve"
lower_action ModerationRecommendedAction.manual_review = "manual_review"

abbrev pub lower_job_status : ModerationJobStatus → String
lower_job_status ModerationJobStatus.pending = "pending"
lower_job_status ModerationJobStatus.running = "running"
lower_job_status ModerationJobStatus.completed = "completed"
lower_job_status ModerationJobStatus.failed = "failed"

abbrev pub map_option : {A B : Type 0} → (A → B) → Option A → Option B
map_option f none = none
map_option f (some a) = some (f a)

unfoldable pub map_latest_moderation : ListingModerationRun → LatestModeration
map_latest_moderation run = record {
  risk_level = lower_risk run.risk_level;
  confidence = run.confidence;
  recommended_action = map_option lower_action run.recommended_action;
  summary = run.summary;
  violations = run.violations_json;
  created_at = run.created_at;
}

abbrev pub is_saved_by : Option String → ListingWithRelations → Bool
is_saved_by none l = false
is_saved_by (some user) l = if truthy user then any (λ f. f.user_id == user) l.favorites else false

unfoldable pub map_listing_to_frontend : ListingWithRelations → Option String → FrontendListing
unfolding map_latest_moderation map_user_to_frontend
map_listing_to_frontend l current_user_id = record {
  id = l.listing.id;
  title = l.listing.title;
  description = l.listing.description;
  price = l.listing.price;
  original_price = l.listing.original_price;
  images = map (λ i. i.url) (sort_by (λ a b. ltb a.order b.order) l.images);
  category = l.category.slug;
  condition = condition_to_frontend l.listing.condition;
  status = status_to_frontend l.listing.status;
  approval_status = approval_to_frontend l.listing.approval_status;
  seller = map_user_to_frontend l.seller;
  department = map_department_to_frontend l.listing.department;
  created_at = l.listing.created_at;
  updated_at = l.listing.updated_at;
  views = l.listing.view_count;
  saved_count = length l.favorites;
  is_saved = is_saved_by current_user_id l;
  latest_moderation =
      map_option map_latest_moderation
        (first_of (sort_by (λ a b. ltb b.created_at a.created_at) l.moderation_runs));
  moderation_job_status =
      map_option (λ (j : ListingModerationJob). lower_job_status j.status) l.moderation_job;
}

-- A text of the client is read as a condition exactly when, trimmed and in lower case, it is the
-- text that the condition is shown as; and the same for the status of a listing.
pub map_condition_from_frontend_iff :
    (u : Unicode) (value : String) (c : Condition) (s : ListingStatus)
    → (map_condition_from_frontend u value ≡ some c
        ↔ u.to_lower (trim value) ≡ condition_to_frontend c)
      × (map_status_from_frontend u value ≡ some s ↔ u.to_lower (trim value) ≡ status_to_frontend s)
unfolding map_condition_from_frontend map_status_from_frontend
map_condition_from_frontend_iff u value c s = (
  (condition_shown c (u.to_lower (trim value)), condition_read c (u.to_lower (trim value))),
  (status_shown s (u.to_lower (trim value)), status_read s (u.to_lower (trim value))),
)
  where
    condition_shown :
        (c : Condition) (t : String)
        → find_entry condition_to_frontend conditions t ≡ some c
        → t ≡ condition_to_frontend c
    condition_shown c t e =
        ground (arith, eq_iff "new" t, eq_iff "like-new" t, eq_iff "good" t, eq_iff "fair" t)

    condition_read :
        (c : Condition) (t : String)
        → t ≡ condition_to_frontend c
        → find_entry condition_to_frontend conditions t ≡ some c
    condition_read Condition.new t e = rw e refl
    condition_read Condition.like_new t e = rw e refl
    condition_read Condition.good t e = rw e refl
    condition_read Condition.fair t e = rw e refl

    status_shown :
        (s : ListingStatus) (t : String)
        → find_entry status_to_frontend statuses t ≡ some s
        → t ≡ status_to_frontend s
    status_shown s t e = ground (arith, eq_iff "selling" t, eq_iff "reserved" t, eq_iff "sold" t)

    status_read :
        (s : ListingStatus) (t : String)
        → t ≡ status_to_frontend s
        → find_entry status_to_frontend statuses t ≡ some s
    status_read ListingStatus.selling t e = rw e refl
    status_read ListingStatus.reserved t e = rw e refl
    status_read ListingStatus.sold t e = rw e refl
