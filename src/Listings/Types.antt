-- ===== src/Listings/Types.antt =====
-- The data that the listings service takes and gives: src/modules/listings/dto, and the types of
-- listings.service.ts and listing.mapper.ts. A field that is undefined is `none`.
use nestjs_learn.Prelude.{ℕ, Bool, Option, List, String}
use nestjs_learn.Schema.{
  User, Listing, Category, ListingImage, Favorite, ListingModerationRun, ListingModerationJob,
}
use nestjs_learn.Users.Mapper.{FrontendUser}

-- `role` is the text of the token.
pub record AuthUser : Type 0 where
  pub user_id : String
  pub role : String

-- An item of `images`, which no decorator checks: a text, an object whose `url` is a text, with the
-- `publicId` if that is one too, or anything else.
pub data ListingImageInput : Type 0 where
  plain_url : String → ListingImageInput
  image_object : String → Option String → ListingImageInput
  malformed : ListingImageInput

pub record CreateListingDto : Type 0 where
  pub title : String
  pub description : String
  pub price : ℕ
  pub original_price : Option ℕ
  pub condition : String
  pub category : String
  pub department : Option String
  pub images : Option (List ListingImageInput)

pub record UpdateListingDto : Type 0 where
  pub title : Option String
  pub description : Option String
  pub price : Option ℕ
  pub original_price : Option ℕ
  pub condition : Option String
  pub status : Option String
  pub department : Option String
  pub category : Option String
  pub images : Option (List ListingImageInput)

pub data SortBy : Type 0 where
  newest oldest price_asc price_desc popular : SortBy

pub record ListingQueryDto : Type 0 where
  pub search : Option String
  pub category : Option String
  pub categories : Option (List String)
  pub condition : Option String
  pub conditions : Option (List String)
  pub department : Option String
  pub departments : Option (List String)
  pub status : Option String
  pub approval_status : Option String
  pub min_price : Option ℕ
  pub max_price : Option ℕ
  pub page : ℕ
  pub limit : ℕ
  pub sort_by : SortBy

-- What `normalizeImageInputs` makes of an item.
pub record NormalizedImage : Type 0 where
  pub url : String
  pub public_id : Option String

pub record ListingWithRelations : Type 0 where
  pub listing : Listing
  pub seller : User
  pub category : Category
  pub images : List ListingImage
  pub favorites : List Favorite
  pub moderation_runs : List ListingModerationRun
  pub moderation_job : Option ListingModerationJob

pub record LatestModeration : Type 0 where
  pub risk_level : String
  pub confidence : Option ℕ
  pub recommended_action : Option String
  pub summary : Option String
  pub violations : List String
  pub created_at : ℕ

-- The object that `mapListingToFrontend` returns.
pub record FrontendListing : Type 0 where
  pub id : String
  pub title : String
  pub description : String
  pub price : ℕ
  pub original_price : Option ℕ
  pub images : List String
  pub category : String
  pub condition : String
  pub status : String
  pub approval_status : String
  pub seller : FrontendUser
  pub department : Option String
  pub created_at : ℕ
  pub updated_at : ℕ
  pub views : ℕ
  pub saved_count : ℕ
  pub is_saved : Bool
  pub latest_moderation : Option LatestModeration
  pub moderation_job_status : Option String
