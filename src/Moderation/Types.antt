-- ===== src/Moderation/Types.antt =====
-- src/modules/ai/moderation.types.ts.
use nestjs_learn.Prelude.{ℕ, Option, List, String}
use nestjs_learn.Schema.{ModerationFailureType}

pub data ModerationJobStatusView : Type 0 where
  pending running completed failed : ModerationJobStatusView

pub data RiskLevelView : Type 0 where
  low medium high error : RiskLevelView

pub data RecommendedActionView : Type 0 where
  approve manual_review : RecommendedActionView

pub record ModerationResultView : Type 0 where
  pub risk_level : RiskLevelView
  pub confidence : Option ℕ
  pub recommended_action : Option RecommendedActionView
  pub summary : Option String
  pub violations : List String
  pub created_at : ℕ

pub data AppliedActionView : Type 0 where
  approved pending : AppliedActionView

pub data WorkflowStatus : Type 0 where
  success error : WorkflowStatus

pub record ModerationWorkflowResult : Type 0 where
  pub moderation : ModerationResultView
  pub applied_action : AppliedActionView
  pub status : WorkflowStatus
  pub failure_type : Option ModerationFailureType
  pub error_message : Option String

pub record ListingModerationInput : Type 0 where
  pub id : String
  pub title : String
  pub description : String
  pub category : String
  pub department : Option String
