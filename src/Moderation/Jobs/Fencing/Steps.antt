-- ===== src/Moderation/Jobs/Fencing/Steps.antt =====
-- The statements of the clients of the queue of moderation jobs as steps, in any order.
use nestjs_learn.Prelude.{ℕ, ◌+◌, ◌<◌, ◌≡◌, Bool, String, All}
use nestjs_learn.Prisma.{Prisma}
use nestjs_learn.Schema.{ListingModerationJob}
use nestjs_learn.Moderation.Jobs.{
  ClaimedModerationJob, Jobs, of_listing, enqueue, recover_stale_jobs, claim_candidate, complete,
  fail, retry,
}

-- The table, and the number of identifiers that the database has given out.
pub record Queue : Type 0 where
  pub jobs : Jobs
  pub issued : ℕ

module _ (db : Prisma) where
  abbrev pub enqueued : String → Bool → ℕ → Queue → Queue
  enqueued listing_id preserve_running now q = record {
    jobs = (enqueue db listing_id preserve_running now (db.cuid q.issued) q.jobs).0;
    issued = q.issued + 1;
  }

  -- One statement of one client. A listing that is deleted takes its job with it.
  pub data Step (q r : Queue) : Type 0 where
    enqueued_by :
        (listing_id : String) (preserve_running : Bool) (now : ℕ)
        → r ≡ enqueued listing_id preserve_running now q
        → Step q r
    recovered_at :
        (now : ℕ) → r ≡ record q { jobs = (recover_stale_jobs db now q.jobs).0 } → Step q r
    claimed_by :
        (candidate : ListingModerationJob) (now : ℕ)
        → r ≡ record q { jobs = (claim_candidate db candidate now q.jobs).0 }
        → Step q r
    completed_by :
        (job : ClaimedModerationJob) (now : ℕ)
        → r ≡ record q { jobs = (complete db job now q.jobs).0 }
        → Step q r
    failed_by :
        (job : ClaimedModerationJob) (message : String) (now : ℕ)
        → r ≡ record q { jobs = (fail db job message now q.jobs).0 }
        → Step q r
    retried_by :
        (job : ClaimedModerationJob) (message : String) (now : ℕ)
        → r ≡ record q { jobs = (retry db job message now q.jobs).0 }
        → Step q r
    listing_deleted :
        (listing_id : String)
        → r ≡ record q { jobs = db.delete_many (of_listing listing_id) q.jobs }
        → Step q r

  pub data Reach (q : Queue) : Queue → Type 0 where
    here : Reach q q
    next : {r s : Queue} → Reach q r → Step r s → Reach q s

  -- Every row of the job with the `k`th identifier has a revision past `revision`.
  pub record IsPast (k revision : ℕ) (q : Queue) : Type 0 where
    pub given : k < q.issued
    pub past : All (λ j. j.id ≡ db.cuid k → revision < j.revision) q.jobs
