-- ===== src/Moderation/Jobs/Outcomes.antt =====
-- How a worker gives a claimed job back.
use nestjs_learn.Prelude.{
  ℕ, ◌+◌, ◌*◌, ◌≤◌, ◌<◌, ◌≡◌, refl, inl, inr, String, arith, some, leb, if◌then◌else◌, map_where,
  Bool-cases,
}
use nestjs_learn.Prisma.{Prisma}
use nestjs_learn.Schema.{ListingModerationJob, ModerationJobStatus}
use nestjs_learn.Moderation.Jobs.{
  ClaimedModerationJob, Jobs, max_attempts, retry_delay_ms, is_held, postponed, failed_with, retry,
}

-- What names the job, its revision and its attempts are as they were.
pub record IsSameJob (j r : ListingModerationJob) : Type 0 where
  pub same_id : r.id ≡ j.id
  pub same_listing : r.listing_id ≡ j.listing_id
  pub same_attempts : r.attempt_count ≡ j.attempt_count
  pub same_revision : r.revision ≡ j.revision
  pub same_creation : r.created_at ≡ j.created_at

pub failed_with-IsSameJob :
    (message : String) (now : ℕ) (j : ListingModerationJob)
    → IsSameJob j (failed_with message now j)
failed_with-IsSameJob message now j = record {
  same_id = refl;
  same_listing = refl;
  same_attempts = refl;
  same_revision = refl;
  same_creation = refl;
}

pub postponed-IsSameJob :
    (message : String) (next now : ℕ) (j : ListingModerationJob)
    → IsSameJob j (postponed message next now j)
postponed-IsSameJob message next now j = record {
  same_id = refl;
  same_listing = refl;
  same_attempts = refl;
  same_revision = refl;
  same_creation = refl;
}

-- What a retry makes of a row that the worker holds.
pub data Retried (job : ClaimedModerationJob) (message : String) (now : ℕ)
    (j r : ListingModerationJob) : Type 0 where
  given_up :
      max_attempts ≤ job.attempt_count
      → r.status ≡ ModerationJobStatus.failed
      → r.last_error ≡ some message
      → IsSameJob j r
      → Retried job message now j r
  put_off :
      job.attempt_count < max_attempts
      → r.status ≡ ModerationJobStatus.pending
      → r.next_run_at ≡ now + 15_000 * job.attempt_count
      → r.last_error ≡ some message
      → IsSameJob j r
      → Retried job message now j r

-- The data that `retry` writes.
abbrev pub retried : ClaimedModerationJob → String → ℕ → ListingModerationJob → ListingModerationJob
retried job message now =
    if leb max_attempts job.attempt_count
    then failed_with message now
    else postponed message (now + retry_delay_ms job.attempt_count) now

module _ (db : Prisma) where
  pub retry_table :
      (job : ClaimedModerationJob) (message : String) (now : ℕ) (jobs : Jobs)
      → (retry db job message now jobs).0 ≡ map_where (is_held job) (retried job message now) jobs
  unfolding retry
  retry_table job message now jobs = elim (Bool-cases (leb max_attempts job.attempt_count)) [
    | inl spent ↦ rw (spent, db.update_many_rows)
    | inr again ↦ rw (again, db.update_many_rows)
  ]

  Retried-row :
      (job : ClaimedModerationJob) (message : String) (now : ℕ) (j : ListingModerationJob)
      → 0 < job.attempt_count
      → Retried job message now j (retried job message now j)
  unfolding retry_delay_ms
  Retried-row job message now j h = elim (Bool-cases (leb max_attempts job.attempt_count)) [
    | inl spent ↦ rw spent (given_up (ground arith) refl refl (failed_with-IsSameJob message now j))
    | inr again ↦ rw again (
        put_off (ground arith) refl (ground arith) refl
          (postponed-IsSameJob message (now + retry_delay_ms job.attempt_count) now j))
  ]

  -- A retry of a job that was claimed at least once: the table keeps its rows, in their places;
  -- every row that the worker does not hold stays as it is; and the row that it holds keeps what
  -- names it, its attempts and its revision, notes the message, and becomes a failed one from the
  -- third attempt on, and before that a pending one that is due after fifteen seconds for each
  -- attempt.
  pub retry_lem :
      (job : ClaimedModerationJob) (message : String) (now : ℕ) (jobs : Jobs)
      → 0 < job.attempt_count
      → (f : ListingModerationJob → ListingModerationJob) × ((retry db job message now jobs).0
          ≡ map_where (is_held job) f jobs)
        × ((j : ListingModerationJob) → Retried job message now j (f j))
  retry_lem job message now jobs h = (
    retried job message now,
    retry_table job message now jobs,
    λ j. Retried-row job message now j h,
  )
