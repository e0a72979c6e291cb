-- ===== src/Tests/Runs.antt =====
-- Runs of the moderation and of the worker at concrete worlds.
use nestjs_learn.Prelude.{map, ◌≡◌, ◌≢◌, refl, true, some, [], ◌∷◌, String, arith, ◌==◌}
use nestjs_learn.Prisma.Memory.{memory}
use nestjs_learn.Schema.{
  Listing, Category, ListingModerationJob, ModerationJobStatus, ListingModerationRun,
  ModerationRiskLevel, ModerationRecommendedAction, ApprovalStatus,
}
use nestjs_learn.World.{World, ok}
use nestjs_learn.Moderation.Types.{ListingModerationInput, ModerationWorkflowResult}
use nestjs_learn.Moderation.Evaluation.{Evaluation, evaluated, ModerationEvaluationResult}
use nestjs_learn.Moderation.Jobs.{ClaimedModerationJob, new_job, started, as_claimed, complete}
use nestjs_learn.Moderation.Workflow.{Config, by_id, approve_listing, run_for_listing}
use nestjs_learn.Moderation.Workflow.Approval.{approve_listing_idempotent}
use nestjs_learn.Moderation.Workflow.Runs.{
  MayApprove, IsInputOf, run_for_listing-approves, run_for_listing_total,
}
use nestjs_learn.Moderation.Worker.{process_job}
use nestjs_learn.Moderation.Worker.Release.{Settles, process_job-IsReleased}
use nestjs_learn.Tests.Worlds.{empty_world, novel, books}

abbrev shop : World
shop = record empty_world {
  listings = novel ∷ [];
  categories = books ∷ [];
  jobs = started 20 (new_job "j1" "l1" 15) ∷ [];
}

abbrev config : Config
config = record { enabled = true; auto_approve_confidence_min = some 85; model_name = "free" }

abbrev clean : ListingModerationInput → Evaluation
clean input = evaluated (record {
  input_hash = "h";
  model = "free";
  risk_level = ModerationRiskLevel.low;
  confidence = 90;
  violations = [];
  summary = "fine";
  recommended_action = ModerationRecommendedAction.approve;
  processing_ms = 7;
})

abbrev hash : ListingModerationInput → String
hash input = input.title

approves :
    (run_for_listing memory config hash 30 "l1" clean shop).1.listings
    ≡ record novel { approval_status = ApprovalStatus.approved; updated_at = 30 } ∷ []
unfolding run_for_listing memory
approves = refl

changes : (run_for_listing memory config hash 30 "l1" clean shop).1.listings ≢ shop.listings
changes e = ground (arith, approves)

run_for_listing-approves_example :
    (l : Listing) × (c : Category) × (memory.find_first (by_id "l1") [] shop.listings ≡ some l)
    × (memory.find_first (λ c. c.id == l.category_id) [] shop.categories ≡ some c)
    × (input : ListingModerationInput) × IsInputOf l c input
    × (r : ModerationEvaluationResult) × (clean input ≡ evaluated r)
    × MayApprove (some 85) r
run_for_listing-approves_example =
    run_for_listing-approves memory config hash 30 "l1" clean shop changes

run_for_listing_total_example :
    let run = run_for_listing memory config hash 30 "l1" clean shop in
    (result : ModerationWorkflowResult) × (row : ListingModerationRun) × (run.0 ≡ ok result)
    × (run.1.runs ≡ memory.create row shop.runs)
    × (row.listing_id ≡ "l1")
unfolding memory
run_for_listing_total_example =
    run_for_listing_total memory config hash 30 "l1" clean shop novel books refl refl refl

approve_listing_idempotent_example :
    (approve_listing memory 40 "l1" (approve_listing memory 30 "l1" shop).1).1
    ≡ (approve_listing memory 30 "l1" shop).1
approve_listing_idempotent_example = approve_listing_idempotent memory 30 40 "l1" shop

abbrev claimed : ClaimedModerationJob
claimed = as_claimed (started 20 (new_job "j1" "l1" 15))

process_job-IsReleased_example :
    Settles memory claimed
      (run_for_listing memory config hash 30 "l1" clean shop).0
      shop.jobs
      (process_job memory config hash 30 clean claimed shop).1.jobs
process_job-IsReleased_example = process_job-IsReleased memory claimed config hash 30 clean shop

-- The run succeeded, so the job is completed.
process_job_completes :
    map
      (λ (j : ListingModerationJob). j.status)
      (process_job memory config hash 30 clean claimed shop).1.jobs
    ≡ ModerationJobStatus.completed ∷ []
unfolding process_job memory run_for_listing complete
process_job_completes = refl
