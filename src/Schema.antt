-- ===== src/Schema.antt =====
-- prisma/schema.prisma: the enumerations and the rows of the tables. A relation is the foreign key;
-- a date is a number of milliseconds; an identifier is a text. A floating-point number of the
-- interval from 0 to 1 is the number that its bits spell, which orders such numbers as they are.
pub mod Enums
pub use Enums.*
use nestjs_learn.Prelude.{ℕ, Bool, Option, List, String}

pub record User : Type 0 where
  pub id : String
  pub email : String
  pub student_id : String
  pub password_hash : String
  pub name : String
  pub avatar_url : Option String
  pub avatar_public_id : Option String
  pub department : Option Department
  pub seller_rating : ℕ
  pub total_reviews : ℕ
  pub is_verified : Bool
  pub is_active : Bool
  pub role : UserRole
  pub last_seen : Option ℕ
  pub is_online : Bool
  pub created_at : ℕ
  pub updated_at : ℕ

pub record OtpVerification : Type 0 where
  pub id : String
  pub email : String
  pub code : String
  pub type : OtpType
  pub expires_at : ℕ
  pub used : Bool
  pub created_at : ℕ

pub record Category : Type 0 where
  pub id : String
  pub name : String
  pub slug : String
  pub icon : Option String

pub record Listing : Type 0 where
  pub id : String
  pub title : String
  pub description : String
  pub price : ℕ
  pub original_price : Option ℕ
  pub condition : Condition
  pub status : ListingStatus
  pub approval_status : ApprovalStatus
  pub department : Option Department
  pub slug : String
  pub view_count : ℕ
  pub seller_id : String
  pub category_id : String
  pub created_at : ℕ
  pub updated_at : ℕ

pub record ListingImage : Type 0 where
  pub id : String
  pub url : String
  pub public_id : Option String
  pub order : ℕ
  pub listing_id : String

pub record Conversation : Type 0 where
  pub id : String
  pub last_message_at : Option ℕ
  pub listing_id : Option String
  pub created_at : ℕ

pub record ConversationParticipant : Type 0 where
  pub id : String
  pub last_read_at : Option ℕ
  pub conversation_id : String
  pub user_id : String

pub record Message : Type 0 where
  pub id : String
  pub content : Option String
  pub image_url : Option String
  pub type : MessageType
  pub conversation_id : String
  pub sender_id : String
  pub created_at : ℕ

pub record Favorite : Type 0 where
  pub id : String
  pub user_id : String
  pub listing_id : String
  pub created_at : ℕ

pub record UserBlock : Type 0 where
  pub id : String
  pub blocker_id : String
  pub blocked_id : String
  pub created_at : ℕ

pub record Report : Type 0 where
  pub id : String
  pub reason : String
  pub status : ReportStatus
  pub listing_id : String
  pub reported_by_id : String
  pub created_at : ℕ
  pub updated_at : ℕ

-- The metadata object of a notification, by the three properties that the services set.
pub record Metadata : Type 0 where
  pub listing_id : Option String
  pub conversation_id : Option String
  pub message_id : Option String
  pub sender_id : Option String

pub record Notification : Type 0 where
  pub id : String
  pub user_id : String
  pub type : NotificationType
  pub title : String
  pub body : String
  pub is_read : Bool
  pub metadata : Option Metadata
  pub created_at : ℕ

pub record ListingModerationRun : Type 0 where
  pub id : String
  pub model : String
  pub input_hash : String
  pub risk_level : ModerationRiskLevel
  pub confidence : Option ℕ
  pub violations_json : List String
  pub summary : Option String
  pub recommended_action : Option ModerationRecommendedAction
  pub applied_action : Option ModerationAppliedAction
  pub status : ModerationRunStatus
  pub processing_ms : Option ℕ
  pub failure_type : Option ModerationFailureType
  pub error_message : Option String
  pub listing_id : String
  pub created_at : ℕ

pub record ListingModerationJob : Type 0 where
  pub id : String
  pub status : ModerationJobStatus
  pub revision : ℕ
  pub attempt_count : ℕ
  pub next_run_at : ℕ
  pub last_error : Option String
  pub listing_id : String
  pub created_at : ℕ
  pub updated_at : ℕ
