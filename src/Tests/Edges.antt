-- ===== src/Tests/Edges.antt =====
-- The edges of the server at concrete values: the exception filter, the origins, uploads, the call of
-- the language model, and what users see of themselves.
use nestjs_learn.Prelude.{ℕ, ◌≡◌, refl, true, false, none, some, [], ◌∷◌}
use nestjs_learn.Prisma.Memory.{memory}
use nestjs_learn.Schema.{User}
use nestjs_learn.Text.{trim}
use nestjs_learn.World.{World, err, bad_request, destroyed}
use nestjs_learn.Users.Mapper.{map_user_to_frontend}
use nestjs_learn.Users.Profile.{
  UpdateMeDto, update_me, avatar_data, ensure_valid_http_url, write_profile, apply_update,
}
use nestjs_learn.Http.Filter.{to_error_code, underlines}
use nestjs_learn.Http.Cors.{
  callback, never, get_cors_origin_option, get_configured_cors_origins, normalize_origin,
  drop_last_slashes, allows_origin,
}
use nestjs_learn.Guards.{split_first}
use nestjs_learn.Moderation.Evaluation.{distinct, failed}
use nestjs_learn.Moderation.Evaluation.Call.{race, threw}
use nestjs_learn.Moderation.Types.{ListingModerationInput}
use nestjs_learn.Moderation.Policy.{build_input_hash}
use nestjs_learn.Text.Json.{escape, join}
use nestjs_learn.Media.{
  MediaEnv, upload_failed, upload_image, ensure_config, missing_keys, join_keys,
}
use nestjs_learn.Tests.Worlds.{empty_world, person}
use nestjs_learn.Tests.Chats.{plain_text}

error_codes :
    (to_error_code plain_text "TOO  MANY, REQUESTS" ≡ "TOO_MANY_REQUESTS")
    × (to_error_code plain_text "?" ≡ "_")
unfolding to_error_code underlines
error_codes = (refl, refl)

origins :
    (get_cors_origin_option (λ s. none) " https://a// , ,https://b,https://b/" none
      ≡ callback ("https://a" ∷ "https://b" ∷ []))
    × (get_cors_origin_option (λ s. none) "" (some "production") ≡ never)
    × (allows_origin (λ s. none) ("https://a" ∷ []) (some "https://a/") ≡ true)
    × (allows_origin (λ s. none) ("https://a" ∷ []) (some "https://c") ≡ false)
unfolding get_cors_origin_option get_configured_cors_origins normalize_origin drop_last_slashes
    allows_origin split_first distinct trim
origins = (refl, refl, refl, refl)

abbrev half_set : MediaEnv
half_set = record {
  cloud_name = some "c";
  api_key = none;
  api_secret = some "";
  folder = none;
  avatar_folder = none;
}

missing_config :
    upload_image half_set (λ folder (b : ℕ). upload_failed none) 0 none
    ≡ err (bad_request "Missing cloudinary config: CLOUDINARY_API_KEY, CLOUDINARY_API_SECRET")
unfolding upload_image ensure_config missing_keys join_keys
missing_config = refl

late_answer :
    race 30000 (some (record { after_ms = 30001; answer = threw none }))
    ≡ failed "AI moderation timed out"
unfolding race
late_answer = refl

abbrev pictured : User
pictured = record (person "ann" "ann@x" true) {
  avatar_url = some "http://old";
  avatar_public_id = some "p1";
}

abbrev home : World
home = record empty_world { users = pictured ∷ [] }

abbrev without_avatar : UpdateMeDto
without_avatar = record { name = some " Ann "; department = none; avatar = some none }

-- The old image is removed with the avatar.
profile_loses_avatar :
    (update_me (λ s. none) (λ id. none) memory plain_text 20 "ann" without_avatar home).1
    ≡ record home {
      users =
          record pictured {
            name = "Ann";
            avatar_url = none;
            avatar_public_id = none;
            updated_at = 20;
          }
          ∷ [];
      effects = destroyed "p1" ∷ [];
    }
unfolding update_me avatar_data ensure_valid_http_url write_profile apply_update memory trim
    map_user_to_frontend
profile_loses_avatar = refl

abbrev quoted : ListingModerationInput
quoted = record {
  id = "l1";
  title = "A \"b\"\n";
  description = "d";
  category = "c";
  department = none;
}

hashed_text :
    build_input_hash (λ s. s) quoted
    ≡ "{\"title\":\"A \\\"b\\\"\\n\",\"description\":\"d\",\"category\":\"c\",\"department\":null}"
unfolding build_input_hash escape join
hashed_text = refl
