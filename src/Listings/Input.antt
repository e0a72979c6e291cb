-- ===== src/Listings/Input.antt =====
-- src/modules/listings/listings.service.ts: how the service reads what the client sends, and
-- `assertCanMutate`. The constructor `URL` is a parameter, as the protocol of a text that it parses.
use text.Mathlib.Text.{starts_with}
use nestjs_learn.Prelude.{
  Bool, not, Option, none, some, List, [], ◌∷◌, String, length, ltb, ◌==◌, if◌then◌else◌,
}
use nestjs_learn.Schema.{Condition, ListingStatus, Department, ApprovalStatus}
use nestjs_learn.Text.{Unicode, trim, truthy}
use nestjs_learn.World.{Result, ok, err, Exception, bad_request, forbidden}
use nestjs_learn.Users.Mapper.{map_department_from_frontend}
use nestjs_learn.Listings.Types.{
  AuthUser, ListingImageInput, plain_url, image_object, malformed, NormalizedImage,
}
use nestjs_learn.Listings.Mapper.{map_condition_from_frontend, map_status_from_frontend}

abbrev pub or_error : {A : Type 0} → Option A → Exception → Result A
or_error none e = err e
or_error (some a) e = ok a

abbrev pub then_result : {A B : Type 0} → Result A → (A → Result B) → Result B
then_result (ok a) f = f a
then_result (err e) f = err e

-- `map` with a function that throws.
abbrev pub map_result : {A B : Type 0} → (A → Result B) → List A → Result (List B)
map_result f [] = ok []
map_result f (a ∷ rest) =
    let later = map_result f rest in then_result (f a) (λ b. then_result later (λ bs. ok (b ∷ bs)))

abbrev pub is_admin : AuthUser → Bool
is_admin user = user.role == "ADMIN"

unfoldable pub assert_can_mutate : String → AuthUser → Result (Unit {0})
assert_can_mutate seller_id user =
    if is_admin user
    then ok tt
    else if not (seller_id == user.user_id)
    then err (forbidden "You do not have permission for this listing")
    else ok tt

module _ (u : Unicode) where
  unfoldable pub parse_condition : String → Result Condition
  unfolding map_condition_from_frontend
  parse_condition value =
      or_error (map_condition_from_frontend u value) (bad_request "Invalid condition value")

  unfoldable pub parse_status : String → Result ListingStatus
  unfolding map_status_from_frontend
  parse_status value =
      or_error (map_status_from_frontend u value) (bad_request "Invalid status value")

  unfoldable pub parse_department : String → Result Department
  unfolding map_department_from_frontend
  parse_department value =
      or_error (map_department_from_frontend u value) (bad_request "Invalid department value")

  unfoldable pub parse_approval_status : String → Result ApprovalStatus
  parse_approval_status value =
      let normalized = u.to_lower (trim value) in
      if normalized == "pending"
      then ok ApprovalStatus.pending
      else if normalized == "approved"
      then ok ApprovalStatus.approved
      else if normalized == "rejected"
      then ok ApprovalStatus.rejected
      else err (bad_request "Invalid approvalStatus value")

module _ (parse_url : String → Option String) where
  -- The field is `images` at every call.
  unfoldable pub ensure_valid_url : String → Result String
  ensure_valid_url value =
      let trimmed = trim value in
      elim (parse_url trimmed) [
        | none ↦ err (bad_request "Invalid URL in images")
        | some protocol ↦
            if starts_with protocol "http"
            then ok trimmed
            else err (bad_request "Invalid URL in images")
      ]

  -- `typeof publicId === 'string' && publicId.trim() ? publicId.trim() : undefined`.
  abbrev pub trimmed_id : Option String → Option String
  trimmed_id none = none
  trimmed_id (some id) = if truthy (trim id) then some (trim id) else none

  unfoldable pub normalize_image : ListingImageInput → Result NormalizedImage
  unfolding ensure_valid_url
  normalize_image (plain_url url) =
      then_result (ensure_valid_url url) (λ valid. ok (record { url = valid; public_id = none }))
  normalize_image (image_object url public_id) =
      then_result (ensure_valid_url url)
        (λ valid. ok (record { url = valid; public_id = trimmed_id public_id }))
  normalize_image malformed = err (bad_request "Invalid images payload")

  unfoldable pub normalize_image_inputs :
      Option (List ListingImageInput) → Result (List NormalizedImage)
  unfolding normalize_image
  normalize_image_inputs none = ok []
  normalize_image_inputs (some inputs) =
      if ltb 5 (length inputs)
      then err (bad_request "images must contain at most 5 items")
      else map_result normalize_image inputs
