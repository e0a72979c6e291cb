-- ===== src/Moderation/Worker/Release.antt =====
-- What `processJob` of src/modules/ai/listing-moderation-worker.service.ts makes of the job that the
-- worker holds.
use nestjs_learn.Prelude.{
  ℕ, ◌≡◌, ◌≢◌, ◌⊎◌, ◌≤◌, ◌<◌, ◌+◌, refl, sym, subst, ◌&&◌, true, false, Option, some, none, [], ◌∷◌,
  String, arith, All, map_where, Bool-cases, inl, inr, leb,
}
use nestjs_learn.Prisma.{Prisma}
use nestjs_learn.Schema.{
  ListingModerationJob, ModerationJobStatus, ModerationFailureType, is_running,
}
use nestjs_learn.World.{World, Result, ok, err, Exception, run_next, try_catch}
use nestjs_learn.Moderation.Types.{ListingModerationInput, ModerationWorkflowResult, WorkflowStatus}
use nestjs_learn.Moderation.Evaluation.{Evaluation}
use nestjs_learn.Moderation.Jobs.{
  Jobs, ClaimedModerationJob, complete, fail, retry, is_held, max_attempts, finished, failed_with,
  postponed, retry_delay_ms,
}
use nestjs_learn.Moderation.Jobs.Outcomes.{
  IsSameJob, retry_table, failed_with-IsSameJob, postponed-IsSameJob,
}
use nestjs_learn.Moderation.Workflow.Runs.{run_for_listing-jobs}
use nestjs_learn.Moderation.Workflow.{Config, run_for_listing, exception_message}
use nestjs_learn.Moderation.Worker.{settle, process_job, is_error, is_transient, on_jobs}

-- A run that is worth another attempt: it threw, or the model timed out or its provider failed.
pub data IsTransient : Result ModerationWorkflowResult → Type 0 where
  threw : (e : Exception) → IsTransient (err e)
  timed_out :
      (result : ModerationWorkflowResult)
      → result.status ≡ WorkflowStatus.error
      → result.failure_type ≡ some ModerationFailureType.timeout
      → IsTransient (ok result)
  not_provided :
      (result : ModerationWorkflowResult)
      → result.status ≡ WorkflowStatus.error
      → result.failure_type ≡ some ModerationFailureType.provider
      → IsTransient (ok result)

-- What becomes of a row that the worker holds, by the outcome of the run.
pub data IsSettled (job : ClaimedModerationJob) (j r : ListingModerationJob)
    : Result ModerationWorkflowResult → Type 0 where
  done :
      (result : ModerationWorkflowResult)
      → result.status ≡ WorkflowStatus.success
      → r.status ≡ ModerationJobStatus.completed
      → IsSettled job j r (ok result)
  ended :
      (result : ModerationWorkflowResult)
      → result.status ≡ WorkflowStatus.error
      → result.failure_type ≢ some ModerationFailureType.timeout
      → result.failure_type ≢ some ModerationFailureType.provider
      → r.status ≡ ModerationJobStatus.failed
      → IsSettled job j r (ok result)
  given_up :
      (run : Result ModerationWorkflowResult)
      → IsTransient run
      → 3 ≤ job.attempt_count
      → r.status ≡ ModerationJobStatus.failed
      → IsSettled job j r run
  put_back :
      (run : Result ModerationWorkflowResult)
      → IsTransient run
      → job.attempt_count < 3
      → r.status ≡ ModerationJobStatus.pending
      → IsSettled job j r run

error_status : (s : WorkflowStatus) → is_error s ≡ true → s ≡ WorkflowStatus.error
error_status WorkflowStatus.error h = refl
error_status WorkflowStatus.success h = absurd (ground arith)

success_status : (s : WorkflowStatus) → is_error s ≡ false → s ≡ WorkflowStatus.success
success_status WorkflowStatus.error h = absurd (ground arith)
success_status WorkflowStatus.success h = refl

transient_type :
    (t : Option ModerationFailureType)
    → is_transient t ≡ true
    → (t ≡ some ModerationFailureType.timeout) ⊎ (t ≡ some ModerationFailureType.provider)
transient_type none h = absurd (ground arith)
transient_type (some ModerationFailureType.timeout) h = inl refl
transient_type (some ModerationFailureType.provider) h = inr refl
transient_type (some ModerationFailureType.parse) h = absurd (ground arith)
transient_type (some ModerationFailureType.unknown) h = absurd (ground arith)

error-IsTransient :
    (result : ModerationWorkflowResult)
    → (is_error result.status && is_transient result.failure_type) ≡ true
    → IsTransient (ok result)
error-IsTransient result h =
    let error = error_status result.status (ground arith) in
    elim (transient_type result.failure_type (ground arith)) [
      | inl late ↦ timed_out result error late
      | inr down ↦ not_provided result error down
    ]

not_transient :
    (result : ModerationWorkflowResult) (t : ModerationFailureType)
    → is_transient (some t) ≡ true
    → (is_error result.status && is_transient result.failure_type) ≡ false
    → is_error result.status ≡ true
    → result.failure_type ≢ some t
not_transient result t counts final error e =
    let same : is_transient result.failure_type ≡ true = rw e counts in absurd (ground arith)

finished-IsSameJob : (now : ℕ) (j : ListingModerationJob) → IsSameJob j (finished now j)
finished-IsSameJob now j = record {
  same_id = refl;
  same_listing = refl;
  same_attempts = refl;
  same_revision = refl;
  same_creation = refl;
}

module _ (db : Prisma) (job : ClaimedModerationJob) where
  abbrev pub IsReleased : Jobs → Type 0
  IsReleased = All (λ j. is_held job j ≡ false)

  -- The table after the run is the one before it, but for the rows that the worker held, which are
  -- settled and held no more.
  abbrev pub Settles : Result ModerationWorkflowResult → Jobs → Jobs → Type 0
  Settles run before after =
      (f : ListingModerationJob → ListingModerationJob) × (after ≡ map_where (is_held job) f before)
      × ((j : ListingModerationJob) → IsSameJob j (f j) × IsSettled job j (f j) run)
      × IsReleased after

  IsReleased-map_where :
      (f : ListingModerationJob → ListingModerationJob)
      → ((j : ListingModerationJob) → is_running (f j).status ≡ false)
      → (jobs : Jobs) → IsReleased (map_where (is_held job) f jobs)
  IsReleased-map_where f stops [] = tt
  IsReleased-map_where f stops (j ∷ js) = (ground (arith, stops j), IsReleased-map_where f stops js)

  settled :
      (run : Result ModerationWorkflowResult) (before after : Jobs)
      (f : ListingModerationJob → ListingModerationJob)
      → after ≡ map_where (is_held job) f before
      → ((j : ListingModerationJob) → is_running (f j).status ≡ false)
      → ((j : ListingModerationJob) → IsSameJob j (f j) × IsSettled job j (f j) run)
      → Settles run before after
  settled run before after f e stops h =
      (f, e, h, subst IsReleased (sym e) (IsReleased-map_where f stops before))

  retry-Settles :
      (run : Result ModerationWorkflowResult) (m : String) (now : ℕ) (jobs : Jobs)
      → IsTransient run
      → Settles run jobs (retry db job m now jobs).0
  retry-Settles run m now jobs worth = elim (Bool-cases (leb max_attempts job.attempt_count)) [
    | inl spent ↦
        settled run jobs _ (failed_with m now) (rw spent at (retry_table db job m now jobs))
          (λ j. refl) (λ j. (failed_with-IsSameJob m now j, given_up run worth (ground arith) refl))
    | inr again ↦
        let next = now + retry_delay_ms job.attempt_count in
        settled run jobs _ (postponed m next now) (rw again at (retry_table db job m now jobs))
          (λ j. refl)
          (λ j. (postponed-IsSameJob m next now j, put_back run worth (ground arith) refl))
  ]

  -- Settling always answers, and settles the job.
  settle-Settles :
      (now : ℕ) (result : ModerationWorkflowResult) (w : World)
      → (n : ℕ) × ((settle db now job result w).0 ≡ ok n)
        × Settles (ok result) w.jobs (settle db now job result w).1.jobs
  unfolding settle complete fail
  settle-Settles now result w =
      elim (Bool-cases (is_error result.status && is_transient result.failure_type)) [
        | inl again ↦
            rw again
              (_, refl, retry-Settles (ok result) _ now w.jobs (error-IsTransient result again))
        | inr final ↦ elim (Bool-cases (is_error result.status)) [
          | inl error ↦
              rw (final, error)
                (
                  _,
                  refl,
                  settled (ok result) w.jobs _ (failed_with _ now) (db.update_many_rows _ _ _)
                      (λ j. refl)
                      (λ j. (
                        failed_with-IsSameJob _ now j,
                        ended result (error_status _ error)
                            (not_transient result _ refl final error)
                            (not_transient result _ refl final error) refl,
                      )),
                )
          | inr success ↦
              rw (final, success)
                (
                  _,
                  refl,
                  settled (ok result) w.jobs _ (finished now) (db.update_many_rows _ _ _)
                      (λ j. refl)
                      (λ j. (
                        finished-IsSameJob now j,
                        done result (success_status result.status success) refl,
                      )),
                )
        ]
      ]

  -- Whatever the run returned, and from whatever world it came back.
  outcome-Settles :
      (now : ℕ) (r : Result ModerationWorkflowResult) (w : World)
      → Settles r w.jobs
          (try_catch
            (λ _. run_next r (settle db now job) w)
            (λ e. on_jobs (retry db job (exception_message e) now))
            w).1.jobs
  outcome-Settles now (err e) w = retry-Settles (err e) _ now w.jobs (threw e)
  outcome-Settles now (ok result) w =
      let (n, answered, free) = settle-Settles now result w in rw answered free

  -- Whatever the model answers and whatever the run throws, after a worker has processed a job, the
  -- table has the rows that it had, in their places, and those that the worker does not hold are
  -- unchanged. One that it held is held no more: it is the same job at the same revision and number
  -- of attempts, completed if the run succeeded, failed if it ended in an error that is neither a
  -- timeout nor one of the provider, and if it threw or ended in one of these two, failed from the
  -- third attempt on and pending again before that.
  pub process_job-IsReleased :
      (config : Config) (hash : ListingModerationInput → String) (now : ℕ)
      (evaluate : ListingModerationInput → Evaluation) (w : World)
      → Settles
          (run_for_listing db config hash now job.listing_id evaluate w).0
          w.jobs
          (process_job db config hash now evaluate job w).1.jobs
  unfolding process_job
  process_job-IsReleased config hash now evaluate w =
      let run = run_for_listing db config hash now job.listing_id evaluate w in
      subst
        (λ (before : Jobs).
          Settles run.0 before (process_job db config hash now evaluate job w).1.jobs)
        (run_for_listing-jobs db config hash now job.listing_id evaluate w)
        (outcome-Settles now run.0 run.1)
