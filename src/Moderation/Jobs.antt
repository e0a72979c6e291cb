-- ===== src/Moderation/Jobs.antt =====
-- src/modules/ai/listing-moderation-job.service.ts: the queue of moderation jobs. Each function is
-- one method over the table of jobs; a method that reads the clock takes the reading, and Prisma's
-- `@updatedAt` takes the same one. The warnings that the methods log are left out.
pub mod Fencing
pub mod Queued
pub mod Race
pub mod Outcomes
pub mod Claims
use nestjs_learn.Prelude.{
  ℕ, ◌+◌, ◌-◌, ◌*◌, Bool, true, false, ◌&&◌, Option, none, some, List, [], ◌∷◌, String, ltb, leb,
  nat_eq, if◌then◌else◌, ◌==◌,
}
use nestjs_learn.Prisma.{Prisma, Order, asc}
use nestjs_learn.Schema.{ListingModerationJob, ModerationJobStatus, is_pending, is_running}
use nestjs_learn.Moderation.Types.{ModerationJobStatusView}

pub record ClaimedModerationJob : Type 0 where
  pub id : String
  pub listing_id : String
  pub attempt_count : ℕ
  pub revision : ℕ

abbrev pub max_attempts : ℕ
max_attempts = 3

abbrev pub stale_run_ms : ℕ
stale_run_ms = 90_000

-- `retryBackoffMs[attemptCount - 1] ?? retryBackoffMs[retryBackoffMs.length - 1]`: an index that is
-- out of range, -1 included, reads the last entry.
unfoldable pub retry_delay_ms : ℕ → ℕ
retry_delay_ms attempt_count =
    if nat_eq attempt_count 1 then 15_000 else if nat_eq attempt_count 2 then 30_000 else 60_000

unfoldable pub map_status : ModerationJobStatus → ModerationJobStatusView
map_status ModerationJobStatus.pending = ModerationJobStatusView.pending
map_status ModerationJobStatus.running = ModerationJobStatusView.running
map_status ModerationJobStatus.completed = ModerationJobStatusView.completed
map_status ModerationJobStatus.failed = ModerationJobStatusView.failed

-- The row that `create` makes of the data and the defaults of the schema.
abbrev pub new_job : String → String → ℕ → ListingModerationJob
new_job id listing_id now = record {
  id = id;
  status = ModerationJobStatus.pending;
  revision = 0;
  attempt_count = 0;
  next_run_at = now;
  last_error = none;
  listing_id = listing_id;
  created_at = now;
  updated_at = now;
}

-- The data that `enqueue` writes to a row that is there.
abbrev pub requeued : ℕ → ListingModerationJob → ListingModerationJob
requeued now j = record j {
  status = ModerationJobStatus.pending;
  revision = j.revision + 1;
  attempt_count = 0;
  next_run_at = now;
  last_error = none;
  updated_at = now;
}

abbrev pub recovered : ℕ → ListingModerationJob → ListingModerationJob
recovered now j = record j {
  status = ModerationJobStatus.pending;
  revision = j.revision + 1;
  next_run_at = now;
  last_error = some "Recovered stale moderation job";
  updated_at = now;
}

abbrev pub started : ℕ → ListingModerationJob → ListingModerationJob
started now j = record j {
  status = ModerationJobStatus.running;
  attempt_count = j.attempt_count + 1;
  last_error = none;
  updated_at = now;
}

abbrev pub finished : ℕ → ListingModerationJob → ListingModerationJob
finished now j = record j {
  status = ModerationJobStatus.completed;
  next_run_at = now;
  last_error = none;
  updated_at = now;
}

abbrev pub failed_with : String → ℕ → ListingModerationJob → ListingModerationJob
failed_with message now j = record j {
  status = ModerationJobStatus.failed;
  next_run_at = now;
  last_error = some message;
  updated_at = now;
}

abbrev pub postponed : String → ℕ → ℕ → ListingModerationJob → ListingModerationJob
postponed message next now j = record j {
  status = ModerationJobStatus.pending;
  next_run_at = next;
  last_error = some message;
  updated_at = now;
}

-- The `where` clauses.
abbrev pub of_listing : String → ListingModerationJob → Bool
of_listing listing_id j = j.listing_id == listing_id

abbrev pub of_id : String → ListingModerationJob → Bool
of_id id j = j.id == id

-- Running, and not touched for longer than a run may last.
abbrev pub is_stale : ℕ → ListingModerationJob → Bool
is_stale now j = is_running j.status && ltb (j.updated_at + stale_run_ms) now

abbrev pub is_due : ℕ → ListingModerationJob → Bool
is_due now j = is_pending j.status && leb j.next_run_at now

abbrev pub is_claimable : ListingModerationJob → ListingModerationJob → Bool
is_claimable candidate j =
    j.id == candidate.id && is_pending j.status && nat_eq j.revision candidate.revision

-- The row that a worker holds: the same job at the same revision, still running.
abbrev pub is_held : ClaimedModerationJob → ListingModerationJob → Bool
is_held job j = j.id == job.id && nat_eq j.revision job.revision && is_running j.status

abbrev pub claim_order : List (Order ListingModerationJob)
claim_order = asc (λ j. j.next_run_at) ∷ asc (λ j. j.created_at) ∷ []

abbrev pub as_claimed : ListingModerationJob → ClaimedModerationJob
as_claimed j = record {
  id = j.id;
  listing_id = j.listing_id;
  attempt_count = j.attempt_count;
  revision = j.revision;
}

abbrev pub Jobs : Type 0
Jobs = List ListingModerationJob

module _ (db : Prisma) where
  unfoldable pub enqueue_existing :
      String → Bool → ℕ → Jobs → ListingModerationJob → Jobs × ModerationJobStatusView
  unfolding map_status
  enqueue_existing listing_id preserve_running now jobs existing =
      if preserve_running && is_running existing.status
      then (jobs, map_status existing.status)
      else (
        (db.update_many (of_listing listing_id) (requeued now) jobs).0,
        map_status ModerationJobStatus.pending,
      )

  -- `enqueue`: the identifier is the one that a new row would get.
  unfoldable pub enqueue : String → Bool → ℕ → String → Jobs → Jobs × ModerationJobStatusView
  unfolding enqueue_existing
  enqueue listing_id preserve_running now id jobs =
      elim (db.find_first (of_listing listing_id) [] jobs) [
        | none ↦
            (db.create (new_job id listing_id now) jobs, map_status ModerationJobStatus.pending)
        | some existing ↦ enqueue_existing listing_id preserve_running now jobs existing
      ]

  unfoldable pub get_status_for_listing : String → Jobs → Option ModerationJobStatusView
  unfolding map_status
  get_status_for_listing listing_id jobs = elim (db.find_first (of_listing listing_id) [] jobs) [
    | none ↦ none
    | some j ↦ some (map_status j.status)
  ]

  -- `recoverStaleJobs`, with the number of jobs that it recovered.
  unfoldable pub recover_stale_jobs : ℕ → Jobs → Jobs × ℕ
  recover_stale_jobs now jobs = db.update_many (is_stale now) (recovered now) jobs

  -- The statements of `claimNextJob`: other clients may run between them.
  unfoldable pub find_candidate : ℕ → Jobs → Option ListingModerationJob
  find_candidate now jobs = db.find_first (is_due now) claim_order jobs

  unfoldable pub claim_candidate : ListingModerationJob → ℕ → Jobs → Jobs × ℕ
  claim_candidate candidate now jobs = db.update_many (is_claimable candidate) (started now) jobs

  -- `none` is the exception of `findUniqueOrThrow`.
  unfoldable pub read_claimed : String → Jobs → Option ClaimedModerationJob
  read_claimed id jobs = elim (db.find_first (of_id id) [] jobs) [
    | none ↦ none
    | some j ↦ some (as_claimed j)
  ]

  unfoldable pub claim_found : ListingModerationJob → ℕ → Jobs → Jobs × Option ClaimedModerationJob
  unfolding claim_candidate read_claimed
  claim_found candidate now jobs =
      let (jobs', claimed) = claim_candidate candidate now jobs in
      if nat_eq claimed 0 then (jobs', none) else (jobs', read_claimed candidate.id jobs')

  unfoldable pub claim_due : ℕ → Jobs → Jobs × Option ClaimedModerationJob
  unfolding find_candidate claim_found
  claim_due now jobs = elim (find_candidate now jobs) [
    | none ↦ (jobs, none)
    | some candidate ↦ claim_found candidate now jobs
  ]

  -- `claimNextJob` where no other client runs in between; the clock reads `now` throughout.
  unfoldable pub claim_next_job : Bool → ℕ → Jobs → Jobs × Option ClaimedModerationJob
  unfolding recover_stale_jobs claim_due
  claim_next_job enabled now jobs =
      if enabled then claim_due now (recover_stale_jobs now jobs).0 else (jobs, none)

  unfoldable pub complete : ClaimedModerationJob → ℕ → Jobs → Jobs × ℕ
  complete job now jobs = db.update_many (is_held job) (finished now) jobs

  unfoldable pub fail : ClaimedModerationJob → String → ℕ → Jobs → Jobs × ℕ
  fail job message now jobs = db.update_many (is_held job) (failed_with message now) jobs

  unfoldable pub retry : ClaimedModerationJob → String → ℕ → Jobs → Jobs × ℕ
  unfolding fail retry_delay_ms
  retry job message now jobs =
      if leb max_attempts job.attempt_count
      then fail job message now jobs
      else db.update_many (is_held job)
          (postponed message (now + retry_delay_ms job.attempt_count) now) jobs
