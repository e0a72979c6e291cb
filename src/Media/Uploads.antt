-- ===== src/Media/Uploads.antt =====
-- src/modules/uploads: the checks of the controller, and the service. Of several failures of a
-- `Promise.all`, that of the first file stands for the one that comes first in time.
use nestjs_learn.Prelude.{
  Bool, not, Option, none, some, List, [], ◌∷◌, String, any, ◌==◌, if◌then◌else◌,
}
use nestjs_learn.World.{Result, ok, err, bad_request}
use nestjs_learn.Users.Mapper.{or_else}
use nestjs_learn.Listings.Query.{present}
use nestjs_learn.Listings.Input.{then_result, map_result}
use nestjs_learn.Media.{MediaEnv, UploadAnswer, UploadedImage, upload_image}

pub record UploadedBinaryFile (Buffer : Type 0) : Type 0 where
  pub mimetype : String
  pub buffer : Buffer

abbrev pub supported_mime_types : List String
supported_mime_types = "image/jpeg" ∷ "image/png" ∷ "image/webp" ∷ []

abbrev pub is_supported : String → Bool
is_supported mimetype = any (λ t. t == mimetype) supported_mime_types

module _ {Buffer : Type 0} where
  unfoldable pub ensure_supported_mime_types : List (UploadedBinaryFile Buffer) → Result (Unit {0})
  ensure_supported_mime_types files =
      if any (λ (f : UploadedBinaryFile Buffer). not (is_supported f.mimetype)) files
      then err (bad_request "Unsupported file type. Allowed: image/jpeg, image/png, image/webp")
      else ok tt

  module _ (env : MediaEnv) (upload : String → Buffer → UploadAnswer) where
    -- The methods of the service.
    unfoldable pub upload_all : List (UploadedBinaryFile Buffer) → Result (List UploadedImage)
    unfolding upload_image
    upload_all files =
        map_result (λ (f : UploadedBinaryFile Buffer). upload_image env upload f.buffer none) files

    unfoldable pub upload_one : UploadedBinaryFile Buffer → Result UploadedImage
    unfolding upload_image
    upload_one file =
        upload_image env upload file.buffer
          (some (or_else (present env.avatar_folder) "cho-sinh-vien/avatars"))

    -- The methods of the controller.
    unfoldable pub upload_images : List (UploadedBinaryFile Buffer) → Result (List UploadedImage)
    unfolding ensure_supported_mime_types upload_all
    upload_images [] = err (bad_request "files is required")
    upload_images (file ∷ rest) =
        then_result (ensure_supported_mime_types (file ∷ rest)) (λ _. upload_all (file ∷ rest))

    unfoldable pub upload_avatar : Option (UploadedBinaryFile Buffer) → Result UploadedImage
    unfolding ensure_supported_mime_types upload_one
    upload_avatar none = err (bad_request "file is required")
    upload_avatar (some file) =
        then_result (ensure_supported_mime_types (file ∷ [])) (λ _. upload_one file)
