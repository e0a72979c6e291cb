-- ===== src/Moderation/Audit.antt =====
-- src/modules/ai/moderation-audit.service.ts: the table of moderation runs.
use nestjs_learn.Prelude.{ℕ, Option, none, some, List, [], ◌∷◌, String, ◌==◌}
use nestjs_learn.Prisma.{Prisma, desc}
use nestjs_learn.Schema.{
  ListingModerationRun, ModerationRiskLevel, ModerationRecommendedAction, ModerationAppliedAction,
  ModerationRunStatus, ModerationFailureType,
}
use nestjs_learn.World.{M, ◌>>=◌, ◌>>◌, pure, gets, modify, fresh}
use nestjs_learn.Moderation.Types.{ModerationResultView, RiskLevelView, RecommendedActionView}

pub record CreateModerationSuccessInput : Type 0 where
  pub listing_id : String
  pub model : String
  pub input_hash : String
  pub risk_level : ModerationRiskLevel
  pub confidence : Option ℕ
  pub violations : List String
  pub summary : Option String
  pub recommended_action : Option ModerationRecommendedAction
  pub applied_action : ModerationAppliedAction
  pub processing_ms : ℕ

pub record CreateModerationErrorInput : Type 0 where
  pub listing_id : String
  pub model : String
  pub input_hash : String
  pub processing_ms : ℕ
  pub failure_type : ModerationFailureType
  pub error_message : String

-- `toLowerCase` on the values of the enumerations.
unfoldable pub risk_view : ModerationRiskLevel → RiskLevelView
risk_view ModerationRiskLevel.low = RiskLevelView.low
risk_view ModerationRiskLevel.medium = RiskLevelView.medium
risk_view ModerationRiskLevel.high = RiskLevelView.high
risk_view ModerationRiskLevel.error = RiskLevelView.error

unfoldable pub action_view : ModerationRecommendedAction → RecommendedActionView
action_view ModerationRecommendedAction.approve = RecommendedActionView.approve
action_view ModerationRecommendedAction.manual_review = RecommendedActionView.manual_review

abbrev pub option_map : {A B : Type 0} → (A → B) → Option A → Option B
option_map f none = none
option_map f (some a) = some (f a)

unfoldable pub map_run_to_view : Option ListingModerationRun → Option ModerationResultView
unfolding risk_view action_view
map_run_to_view none = none
map_run_to_view (some run) = some (record {
  risk_level = risk_view run.risk_level;
  confidence = run.confidence;
  recommended_action = option_map action_view run.recommended_action;
  summary = run.summary;
  violations = run.violations_json;
  created_at = run.created_at;
})

module _ (db : Prisma) where
  abbrev pub add_run : ListingModerationRun → M ListingModerationRun
  add_run run = do modify (λ w. record w { runs = db.create run w.runs }); pure run

  unfoldable pub create_success : ℕ → CreateModerationSuccessInput → M ListingModerationRun
  create_success now input = do
    id ← fresh db
    add_run (record {
      id = id;
      model = input.model;
      input_hash = input.input_hash;
      risk_level = input.risk_level;
      confidence = input.confidence;
      violations_json = input.violations;
      summary = input.summary;
      recommended_action = input.recommended_action;
      applied_action = some input.applied_action;
      status = ModerationRunStatus.success;
      processing_ms = some input.processing_ms;
      failure_type = none;
      error_message = none;
      listing_id = input.listing_id;
      created_at = now;
    })

  unfoldable pub create_error : ℕ → CreateModerationErrorInput → M ListingModerationRun
  create_error now input = do
    id ← fresh db
    add_run (record {
      id = id;
      model = input.model;
      input_hash = input.input_hash;
      risk_level = ModerationRiskLevel.error;
      confidence = none;
      violations_json = [];
      summary = none;
      recommended_action = none;
      applied_action = some ModerationAppliedAction.pending;
      status = ModerationRunStatus.error;
      processing_ms = some input.processing_ms;
      failure_type = some input.failure_type;
      error_message = some input.error_message;
      listing_id = input.listing_id;
      created_at = now;
    })

  unfoldable pub latest_for_listing : String → M (Option ListingModerationRun)
  latest_for_listing listing_id =
      gets (λ w.
        db.find_first (λ r. r.listing_id == listing_id) (desc (λ r. r.created_at) ∷ []) w.runs)
