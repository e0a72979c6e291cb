-- ===== src/Users/Profile.antt =====
-- src/modules/users/services/users.service.ts: `updateMe` and `ensureValidHttpUrl`. The constructor
-- `URL` is a parameter, as the protocol of a text that it parses.
use nestjs_learn.Prelude.{
  ℕ, Bool, true, false, not, ◌&&◌, ◌||◌, Option, none, some, List, [], ◌∷◌, String, ◌==◌,
  if◌then◌else◌,
}
use nestjs_learn.Prisma.{Prisma}
use nestjs_learn.Schema.{User, Department}
use nestjs_learn.Text.{Unicode, trim, truthy}
use nestjs_learn.World.{
  M, Result, ok, err, Exception, bad_request, not_found, database, ◌>>=◌, ◌>>◌, pure, lift, gets,
  modify, require,
}
use nestjs_learn.Users.Mapper.{
  FrontendUser, map_user_to_frontend, map_department_from_frontend, or_else,
}
use nestjs_learn.Users.Accounts.{parse_department}
use nestjs_learn.Listings.Store.{destroy_images}

pub record UpdateAvatarDto : Type 0 where
  pub url : String
  pub public_id : Option String

-- The avatar is undefined, `null` or an object.
pub record UpdateMeDto : Type 0 where
  pub name : Option String
  pub department : Option String
  pub avatar : Option (Option UpdateAvatarDto)

pub record AvatarData : Type 0 where
  pub avatar_url : Option String
  pub avatar_public_id : Option String

-- The keys that `data` gets. The department can be a key whose value is undefined, which Prisma
-- does not write.
pub record UserUpdateInput : Type 0 where
  pub name : Option String
  pub department : Option (Option Department)
  pub avatar : Option AvatarData

abbrev pub is_url_of_http : Option String → Bool
is_url_of_http none = false
is_url_of_http (some protocol) = protocol == "http:" || protocol == "https:"

-- The field is `avatar` at the only call.
unfoldable pub ensure_valid_http_url : (String → Option String) → String → Result String
ensure_valid_http_url parse_url value =
    if is_url_of_http (parse_url (trim value))
    then ok (trim value)
    else err (bad_request "Invalid avatar URL")

abbrev pub name_data : Option String → Result (Option String)
name_data none = ok none
name_data (some name) =
    if truthy (trim name) then ok (some (trim name)) else err (bad_request "Invalid name")

abbrev pub as_key : Result (Option Department) → Result (Option (Option Department))
as_key (ok d) = ok (some d)
as_key (err e) = err e

abbrev pub department_data : Unicode → Option String → Result (Option (Option Department))
department_data u none = ok none
department_data u (some s) = as_key (parse_department u (some s))

-- `payload.avatar.publicId?.trim() || null`.
abbrev pub trimmed_or_null : Option String → Option String
trimmed_or_null none = none
trimmed_or_null (some s) = if truthy (trim s) then some (trim s) else none

abbrev pub is_public_id : String → Option String → Bool
is_public_id id none = false
is_public_id id (some other) = id == other

-- The image that the new one replaces, if it has a `publicId` and the new one has another.
abbrev pub replaced_image : Option String → Option String → List String
replaced_image none public_id = []
replaced_image (some old) public_id =
    if truthy old && not (is_public_id old public_id) then old ∷ [] else []

abbrev pub has_keys : UserUpdateInput → Bool
has_keys data_keys = elim data_keys.name [
  | some _ ↦ true
  | none ↦ elim data_keys.department [
    | some _ ↦ true
    | none ↦ elim data_keys.avatar [ some _ ↦ true | none ↦ false ]
  ]
]

abbrev pub written_department : Option (Option Department) → Option Department → Option Department
written_department (some (some d)) old = some d
written_department (some none) old = old
written_department none old = old

-- The row that Prisma writes.
unfoldable pub apply_update : UserUpdateInput → ℕ → User → User
apply_update data_keys now x =
    let old_avatar : AvatarData = record {
      avatar_url = x.avatar_url;
      avatar_public_id = x.avatar_public_id;
    } in
    let avatar = or_else data_keys.avatar old_avatar in
    record x {
      name = or_else data_keys.name x.name;
      department = written_department data_keys.department x.department;
      avatar_url = avatar.avatar_url;
      avatar_public_id = avatar.avatar_public_id;
      updated_at = now;
    }

module _ (parse_url : String → Option String) (destroy_failure : String → Option Exception) where
  -- The branch `payload.avatar !== undefined`, with the removal of the old image.
  unfoldable pub avatar_data : User → Option (Option UpdateAvatarDto) → M (Option AvatarData)
  unfolding ensure_valid_http_url
  avatar_data existing none = pure Option.none
  avatar_data existing (some none) = do
    destroy_images destroy_failure (replaced_image existing.avatar_public_id none)
    pure (some (record { avatar_url = none; avatar_public_id = none }))
  avatar_data existing (some (some avatar)) = do
    avatar_url ← lift (ensure_valid_http_url parse_url avatar.url)
    let public_id : Option String = trimmed_or_null avatar.public_id
    destroy_images destroy_failure (replaced_image existing.avatar_public_id public_id)
    pure (some (record { avatar_url = some avatar_url; avatar_public_id = public_id }))

  module _ (db : Prisma) where
    -- The last `prisma.user.update`.
    unfoldable pub write_profile : ℕ → String → UserUpdateInput → M FrontendUser
    unfolding apply_update map_user_to_frontend
    write_profile now user_id data_keys = do
      modify (λ w. record w {
        users =
            (db.update_many (λ (x : User). x.id == user_id) (apply_update data_keys now) w.users).0;
      })
      found ← gets (λ w. db.find_first (λ (x : User). x.id == user_id) [] w.users)
      user ← require found (database "P2025")
      pure (map_user_to_frontend user)

    unfoldable pub update_me : Unicode → ℕ → String → UpdateMeDto → M FrontendUser
    unfolding map_department_from_frontend avatar_data write_profile map_user_to_frontend
    update_me u now user_id payload = do
      found ← gets (λ w. db.find_first (λ (x : User). x.id == user_id) [] w.users)
      existing ← require found (not_found "User not found")
      name ← lift (name_data payload.name)
      department ← lift (department_data u payload.department)
      avatar ← avatar_data existing payload.avatar
      let data_keys : UserUpdateInput = record {
        name = name;
        department = department;
        avatar = avatar;
      }
      (if has_keys data_keys
          then write_profile now user_id data_keys
          else pure (map_user_to_frontend existing))
