-- ===== src/Moderation/Worker.antt =====
-- src/modules/ai/listing-moderation-worker.service.ts. The timer that calls `poll` is left out; a
-- round of its loop has a reading of the clock and the answers of the model of its own.
pub mod Release
use Prim.Native.String.{◌++◌ as str_append}
use nestjs_learn.Prelude.{
  ℕ, zero, suc, ◌+◌, Bool, true, false, ◌&&◌, ◌||◌, Option, none, some, List, String, if◌then◌else◌,
}
use nestjs_learn.Prisma.{Prisma}
use nestjs_learn.Schema.{ModerationFailureType, timeout, provider, parse, unknown}
use nestjs_learn.World.{World, M, Result, ok, err, Exception, ◌>>=◌, ◌>>◌, pure, try_catch, skip}
use nestjs_learn.Moderation.Types.{ModerationWorkflowResult, WorkflowStatus, ListingModerationInput}
use nestjs_learn.Moderation.Evaluation.{Evaluation}
use nestjs_learn.Moderation.Jobs.{Jobs, ClaimedModerationJob, claim_next_job, complete, fail, retry}
use nestjs_learn.Moderation.Workflow.{Config, run_for_listing, exception_message}

-- A method of the job service, on the table of jobs.
abbrev pub on_jobs : {A : Type 0} → (Jobs → Jobs × A) → M A
on_jobs f w = (ok (f w.jobs).1, record w { jobs = (f w.jobs).0 })

abbrev pub is_error : WorkflowStatus → Bool
is_error WorkflowStatus.error = true
is_error WorkflowStatus.success = false

-- `TIMEOUT` and `PROVIDER` are worth another attempt.
abbrev pub is_transient : Option ModerationFailureType → Bool
is_transient (some ModerationFailureType.timeout) = true
is_transient (some ModerationFailureType.provider) = true
is_transient _ = false

abbrev pub failure_name : ModerationFailureType → String
failure_name ModerationFailureType.timeout = "TIMEOUT"
failure_name ModerationFailureType.provider = "PROVIDER"
failure_name ModerationFailureType.parse = "PARSE"
failure_name ModerationFailureType.unknown = "UNKNOWN"

abbrev pub or_text : Option String → String → String
or_text none s = s
or_text (some t) s = t

abbrev pub failure_text : Option ModerationFailureType → String
failure_text none = "AI moderation failed"
failure_text (some t) = str_append "AI moderation failed with " (failure_name t)

module _ (db : Prisma) where
  -- What `processJob` does with the result of a run.
  unfoldable pub settle : ℕ → ClaimedModerationJob → ModerationWorkflowResult → M ℕ
  settle now job result =
      if is_error result.status && is_transient result.failure_type
      then on_jobs (retry db job (or_text result.error_message "AI moderation retry scheduled") now)
      else if is_error result.status
      then on_jobs
          (fail db job (or_text result.error_message (failure_text result.failure_type)) now)
      else on_jobs (complete db job now)

  module _ (config : Config) (hash : ListingModerationInput → String) where
    unfoldable pub process_job :
        ℕ → (ListingModerationInput → Evaluation) → ClaimedModerationJob → M ℕ
    unfolding settle
    process_job now evaluate job =
        try_catch
          (do
            result ← run_for_listing db config hash now job.listing_id evaluate
            settle now job result)
          (λ e. on_jobs (retry db job (exception_message e) now))

    -- The rounds of the loop that are left.
    unfoldable pub poll_rounds :
        (ℕ → ℕ) → (ℕ → ListingModerationInput → Evaluation) → ℕ → M (Unit {0})
    unfolding process_job claim_next_job
    poll_rounds clock evaluate zero = skip
    poll_rounds clock evaluate (suc n) = do
      job ← on_jobs (claim_next_job db config.enabled (clock n))
      let rest = poll_rounds clock evaluate n
      elim job [ none ↦ skip | some claimed ↦ do process_job (clock n) (evaluate n) claimed; rest ]

    -- `poll` with the flag `running`, which its `finally` clears.
    unfoldable pub poll :
        (ℕ → ℕ)
        → (ℕ → ListingModerationInput → Evaluation)
        → Bool
        → World
        → Bool × Result (Unit {0}) × World
    unfolding poll_rounds
    poll clock evaluate running w =
        if running
        then (running, ok tt, w)
        else (let outcome = poll_rounds clock evaluate 5 w in (false, outcome.0, outcome.1))
