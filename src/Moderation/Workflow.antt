-- ===== src/Moderation/Workflow.antt =====
-- src/modules/ai/listing-moderation-workflow.service.ts. The evaluation of a listing by the model and
-- the hash of an input are functions that the methods are given, as is the reading of the clock.
pub mod Approval
pub mod Runs
use nestjs_learn.Prelude.{
  ℕ, Bool, true, false, not, ◌&&◌, Option, none, some, List, [], ◌∷◌, ◌++◌, String, leb,
  if◌then◌else◌, ◌==◌,
}
use Prim.Native.String.{◌++◌ as str_append}
use nestjs_learn.Prisma.{Prisma}
use nestjs_learn.Schema.{
  Listing, Category, Department, cntt, kinhtoe, marketing, ngoaingu, luat, quanly, kythuat,
  ApprovalStatus, NotificationType, ModerationRiskLevel, ModerationRecommendedAction,
  ModerationAppliedAction, ModerationFailureType, ListingModerationRun, is_approved, is_rejected,
  Metadata,
}
use nestjs_learn.World.{
  World, M, Exception, bad_request, unauthorized, forbidden, not_found, conflict, internal,
  service_unavailable, database, plain, ◌>>=◌, ◌>>◌, pure, throw, gets, modify, require, throw_if,
  try_catch, when, skip,
}
use nestjs_learn.Notifications
use nestjs_learn.Moderation.Types.{
  ModerationResultView, AppliedActionView, WorkflowStatus, ModerationWorkflowResult,
  ListingModerationInput,
}
use nestjs_learn.Moderation.Evaluation.{
  Evaluation, evaluated, rejected, ModerationEvaluationResult, ModerationEvaluationError,
}
use nestjs_learn.Moderation.Audit.{create_success, create_error, map_run_to_view}

-- `enabled`, `autoApproveConfidenceMin` (`none` is NaN) and the name of the model.
pub record Config : Type 0 where
  pub enabled : Bool
  pub auto_approve_confidence_min : Option ℕ
  pub model_name : String

abbrev pub is_low : ModerationRiskLevel → Bool
is_low ModerationRiskLevel.low = true
is_low _ = false

abbrev pub is_approve : ModerationRecommendedAction → Bool
is_approve ModerationRecommendedAction.approve = true
is_approve ModerationRecommendedAction.manual_review = false

abbrev pub no_items : List String → Bool
no_items [] = true
no_items (s ∷ rest) = false

-- `confidence >= min`, false on NaN.
abbrev pub at_least : Option ℕ → ℕ → Bool
at_least none c = false
at_least (some m) c = leb m c

unfoldable pub should_auto_approve : Option ℕ → ModerationEvaluationResult → Bool
should_auto_approve min r =
    is_low r.risk_level
    && at_least min r.confidence
    && no_items r.violations
    && is_approve r.recommended_action

abbrev pub exception_message : Exception → String
exception_message (bad_request s) = s
exception_message (unauthorized s) = s
exception_message (forbidden s) = s
exception_message (not_found s) = s
exception_message (conflict s) = s
exception_message (internal s) = s
exception_message (service_unavailable s) = s
exception_message (database s) = s
exception_message (plain s) = s

-- `department.toLowerCase()`.
abbrev pub lower_department : Department → String
lower_department cntt = "cntt"
lower_department kinhtoe = "kinhtoe"
lower_department marketing = "marketing"
lower_department ngoaingu = "ngoaingu"
lower_department luat = "luat"
lower_department quanly = "quanly"
lower_department kythuat = "kythuat"

abbrev pub by_id : String → Listing → Bool
by_id id l = l.id == id

abbrev pub with_approval : ApprovalStatus → ℕ → Listing → Listing
with_approval status now l = record l { approval_status = status; updated_at = now }

abbrev pub listing_metadata : String → Option Metadata
listing_metadata id =
    some
      (record { listing_id = some id; conversation_id = none; message_id = none; sender_id = none })

-- What of a listing the model gets to see.
abbrev pub moderation_input : Listing → Category → ListingModerationInput
moderation_input listing category = record {
  id = listing.id;
  title = listing.title;
  description = listing.description;
  category = category.slug;
  department = elim listing.department [ none ↦ none | some d ↦ some (lower_department d) ];
}

module _ (db : Prisma) where
  abbrev pub find_listing : String → M (Option Listing)
  find_listing id = gets (λ w. db.find_first (by_id id) [] w.listings)

  -- `update` of a listing that is there, which returns the new row.
  abbrev pub set_approval : ApprovalStatus → ℕ → Listing → M Listing
  set_approval status now l = do
    modify (λ w. record w {
      listings = (db.update_many (by_id l.id) (with_approval status now) w.listings).0;
    })
    pure (with_approval status now l)

  unfoldable pub approve_listing : ℕ → String → M Listing
  unfolding Notifications.create
  approve_listing now id = do
    found ← find_listing id
    listing ← require found (not_found "Listing not found")
    if is_approved listing.approval_status then pure listing else do
      updated ← set_approval ApprovalStatus.approved now listing
      Notifications.create db now updated.seller_id NotificationType.listing_approved
          "Listing approved"
          (str_append "Your listing \"" (str_append updated.title "\" has been approved."))
          (listing_metadata updated.id)
      pure updated

  unfoldable pub reject_listing : ℕ → String → M Listing
  unfolding Notifications.create
  reject_listing now id = do
    found ← find_listing id
    listing ← require found (not_found "Listing not found")
    if is_rejected listing.approval_status then pure listing else do
      updated ← set_approval ApprovalStatus.rejected now listing
      Notifications.create db now updated.seller_id NotificationType.listing_rejected
          "Listing rejected"
          (str_append "Your listing \"" (str_append updated.title "\" has been rejected."))
          (listing_metadata updated.id)
      pure updated

  unfoldable pub load_moderation_input : String → M ListingModerationInput
  load_moderation_input listing_id = do
    found ← find_listing listing_id
    listing ← require found (not_found "Listing not found")
    category ← gets (λ w. db.find_first (λ c. c.id == listing.category_id) [] w.categories)
    -- The foreign key makes the category be there.
    row ← require category (database "category")
    pure (moderation_input listing row)

  module _ (config : Config) (hash : ListingModerationInput → String) (now : ℕ)
      (listing_id : String) where
    -- `mapRunToView(run)!`: a run has a view.
    abbrev pub result_view :
        ListingModerationRun
        → AppliedActionView
        → WorkflowStatus
        → Option ModerationFailureType
        → Option String
        → M ModerationWorkflowResult
    result_view run action status failure message = do
      view ← require (map_run_to_view (some run)) (plain "run")
      pure (record {
        moderation = view;
        applied_action = action;
        status = status;
        failure_type = failure;
        error_message = message;
      })

    -- The body of the `try` behind the evaluation.
    unfoldable pub apply_result : ModerationEvaluationResult → M ModerationWorkflowResult
    unfolding should_auto_approve create_success approve_listing map_run_to_view
    apply_result result = do
      let approves = should_auto_approve config.auto_approve_confidence_min result
      run ← create_success db now (record {
        listing_id = listing_id;
        model = result.model;
        input_hash = result.input_hash;
        risk_level = result.risk_level;
        confidence = some result.confidence;
        violations = result.violations;
        summary = some result.summary;
        recommended_action = some result.recommended_action;
        applied_action =
            if approves then ModerationAppliedAction.approved else ModerationAppliedAction.pending;
        processing_ms = result.processing_ms;
      })
      when approves (do approve_listing now listing_id; skip)
      result_view run (if approves then AppliedActionView.approved else AppliedActionView.pending)
          WorkflowStatus.success none none

    -- The body of the `catch`.
    unfoldable pub record_failure :
        ListingModerationInput → ModerationEvaluationError → M ModerationWorkflowResult
    unfolding create_error map_run_to_view
    record_failure input failure = do
      run ← create_error db now (record {
        listing_id = listing_id;
        model = failure.model;
        input_hash = hash input;
        processing_ms = failure.processing_ms;
        failure_type = failure.failure_type;
        error_message = failure.message;
      })
      result_view run AppliedActionView.pending WorkflowStatus.error (some failure.failure_type)
          (some failure.message)

    -- An exception that is no evaluation error becomes one of an unknown kind.
    abbrev pub as_failure : Exception → ModerationEvaluationError
    as_failure e = record {
      message = exception_message e;
      failure_type = ModerationFailureType.unknown;
      processing_ms = 0;
      model = config.model_name;
    }

    unfoldable pub conclude : ListingModerationInput → Evaluation → M ModerationWorkflowResult
    unfolding apply_result record_failure
    conclude input (rejected failure) = record_failure input failure
    conclude input (evaluated result) =
        try_catch (apply_result result) (λ e. record_failure input (as_failure e))

    unfoldable pub run_for_listing :
        (ListingModerationInput → Evaluation) → M ModerationWorkflowResult
    unfolding load_moderation_input conclude
    run_for_listing evaluate = do
      throw_if (not config.enabled) (bad_request "AI moderation is disabled")
      input ← load_moderation_input listing_id
      conclude input (evaluate input)
