-- ===== src/Media.antt =====
-- src/core/media/cloudinary.service.ts: the media store. The calls of Cloudinary are parameters.
pub mod Uploads
use Prim.Native.String.{◌++◌ as str_append}
use nestjs_learn.Prelude.{
  Bool, not, ◌&&◌, Option, none, some, List, [], ◌∷◌, ◌++◌, map, String, if◌then◌else◌,
}
use nestjs_learn.Text.{truthy, is_empty}
use nestjs_learn.World.{Result, ok, err, Exception, bad_request, internal}
use nestjs_learn.Users.Mapper.{or_else}
use nestjs_learn.Listings.Query.{present}
use nestjs_learn.Listings.Input.{then_result}

-- The variables of `process.env` that the service and its clients read.
pub record MediaEnv : Type 0 where
  pub cloud_name : Option String
  pub api_key : Option String
  pub api_secret : Option String
  pub folder : Option String
  pub avatar_folder : Option String

-- How the upload stream answers: an error, with its message where it is an `Error`, or a result,
-- whose texts may be undefined.
pub data UploadAnswer : Type 0 where
  upload_failed : Option String → UploadAnswer
  uploaded : Option String → Option String → UploadAnswer

-- How `destroy` answers.
pub data DestroyAnswer : Type 0 where
  destroy_failed : Option String → DestroyAnswer
  destroy_done : DestroyAnswer

pub record UploadedImage : Type 0 where
  pub url : String
  pub public_id : String

-- The keys without a value, in order.
abbrev pub unless_set : String → Option String → List String
unless_set key value = elim (present value) [ none ↦ key ∷ [] | some _ ↦ [] ]

unfoldable pub missing_keys : MediaEnv → List String
missing_keys env =
    unless_set "CLOUDINARY_CLOUD_NAME" env.cloud_name
    ++ unless_set "CLOUDINARY_API_KEY" env.api_key
    ++ unless_set "CLOUDINARY_API_SECRET" env.api_secret

-- `join(', ')`.
unfoldable pub join_keys : List String → String
join_keys [] = ""
join_keys (key ∷ []) = key
join_keys (key ∷ other ∷ rest) = str_append key (str_append ", " (join_keys (other ∷ rest)))

unfoldable pub ensure_config : MediaEnv → Result (Unit {0})
unfolding missing_keys join_keys
ensure_config env = elim (missing_keys env) [
  | [] ↦ ok tt
  | key ∷ others ↦
      err (bad_request (str_append "Missing cloudinary config: " (join_keys (key ∷ others))))
]

-- `!result.secure_url || !result.public_id`.
abbrev pub read_upload : UploadAnswer → Result UploadedImage
read_upload (upload_failed message) = err (internal (or_else message "Cloudinary upload failed"))
read_upload (uploaded url public_id) = elim (present url) [
  | none ↦ err (internal "Cloudinary upload failed")
  | some u ↦ elim (present public_id) [
    | none ↦ err (internal "Cloudinary upload failed")
    | some p ↦ ok (record { url = u; public_id = p })
  ]
]

-- `folder || process.env.CLOUDINARY_FOLDER || 'cho-sinh-vien/listings'`.
abbrev pub upload_folder : MediaEnv → Option String → String
upload_folder env folder =
    or_else (present folder) (or_else (present env.folder) "cho-sinh-vien/listings")

-- `upload` is the call of the stream with the folder and the bytes.
unfoldable pub upload_image :
    {Buffer : Type 0}
    → MediaEnv
    → (String → Buffer → UploadAnswer)
    → Buffer
    → Option String
    → Result UploadedImage
unfolding ensure_config
upload_image env upload buffer folder =
    then_result (ensure_config env) (λ _. read_upload (upload (upload_folder env folder) buffer))

abbrev pub read_destroy : DestroyAnswer → Result (Unit {0})
read_destroy (destroy_failed message) = err (internal (or_else message "Cloudinary destroy failed"))
read_destroy destroy_done = ok tt

unfoldable pub destroy_image : MediaEnv → (String → DestroyAnswer) → String → Result (Unit {0})
unfolding ensure_config
destroy_image env destroy public_id =
    if is_empty public_id
    then ok tt
    else then_result (ensure_config env) (λ _. read_destroy (destroy public_id))
