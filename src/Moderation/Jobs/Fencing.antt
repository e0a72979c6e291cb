-- ===== src/Moderation/Jobs/Fencing.antt =====
-- The queue of moderation jobs shared by several workers: every statement is one step, in any
-- order, and a worker whose job was queued anew since its claim changes nothing any more.
mod Steps
use nestjs_learn.Prelude.{
  ℕ, ◌+◌, ◌⊎◌, ◌≤◌, ◌<◌, ◌≡◌, Bool, true, false, [], ◌∷◌, String, arith, All, All-append,
  All-map_where, All-keep, All-mono, map_where, map_where-none, if◌then◌else◌, leb, eq_iff,
  Option-cases, Bool-cases, inl, inr, none, some,
}
use nestjs_learn.Prisma.{Prisma}
use nestjs_learn.Schema.{ListingModerationJob}
use nestjs_learn.Moderation.Jobs.{
  ClaimedModerationJob, Jobs, of_listing, requeued, new_job, enqueue, recover_stale_jobs,
  claim_candidate, complete, fail, retry, is_held, max_attempts,
}
pub use Steps.*

module _ (db : Prisma) where
  enqueue_missing :
      (listing_id : String) (now : ℕ) (id : String) (jobs : Jobs)
      → db.find_first (of_listing listing_id) [] jobs ≡ none
      → (enqueue db listing_id false now id jobs).0 ≡ db.create (new_job id listing_id now) jobs
  unfolding enqueue
  enqueue_missing listing_id now id jobs h = ground arith

  pub enqueue_found :
      (listing_id : String) (now : ℕ) (id : String) (jobs : Jobs) {j : ListingModerationJob}
      → db.find_first (of_listing listing_id) [] jobs ≡ some j
      → (enqueue db listing_id false now id jobs).0
        ≡ (db.update_many (of_listing listing_id) (requeued now) jobs).0
  unfolding enqueue
  enqueue_found listing_id now id jobs h = ground arith

  -- What `enqueue` does to the table: a new row, nothing, or the row of the listing anew.
  enqueue-cases :
      (listing_id : String) (preserve_running : Bool) (now : ℕ) (id : String) (jobs : Jobs)
      → let after = (enqueue db listing_id preserve_running now id jobs).0 in
        (after ≡ db.create (new_job id listing_id now) jobs)
        ⊎ (after ≡ jobs)
        ⊎ (after ≡ (db.update_many (of_listing listing_id) (requeued now) jobs).0)
  unfolding enqueue
  enqueue-cases listing_id preserve_running now id jobs = ground arith

  module _ (k revision : ℕ) where
    abbrev Later : ListingModerationJob → Type 0
    Later j = j.id ≡ db.cuid k → revision < j.revision

    Later-update :
        (test : ListingModerationJob → Bool) (f : ListingModerationJob → ListingModerationJob)
        → ((j : ListingModerationJob) → Later j → Later (f j))
        → (jobs : Jobs) → All Later jobs
        → All Later (db.update_many test f jobs).0
    Later-update test f step jobs h =
        rw db.update_many_rows (All-map_where Later test f jobs (λ j p. choose j p (test j)) h)
      where
        choose : (j : ListingModerationJob) → Later j → (b : Bool) → Later (if b then f j else j)
        choose j p true = step j p
        choose j p false = p

    Later-enqueue :
        (listing_id : String) (preserve_running : Bool) (now : ℕ) (q : Queue)
        → k < q.issued
        → All Later q.jobs
        → All Later (enqueued db listing_id preserve_running now q).jobs
    Later-enqueue listing_id preserve_running now q given h =
        elim (enqueue-cases listing_id preserve_running now (db.cuid q.issued) q.jobs) [
          | inl added ↦
              rw (added, db.create_lem)
                (All-append Later q.jobs _ h
                  ((λ e. absurd (omega (arith, db.cuid_injective q.issued k e))), tt))
          | inr (inl same) ↦ rw same h
          | inr (inr anew) ↦ rw anew (Later-update _ _ (λ j p e. omega (arith, p e)) q.jobs h)
        ]

    Later-retry :
        (job : ClaimedModerationJob) (message : String) (now : ℕ) (jobs : Jobs)
        → All Later jobs
        → All Later (retry db job message now jobs).0
    unfolding retry
    Later-retry job message now jobs h = elim (Bool-cases (leb max_attempts job.attempt_count)) [
      | inl spent ↦ rw spent (Later-update _ _ (λ j p. p) jobs h)
      | inr again ↦ rw again (Later-update _ _ (λ j p. p) jobs h)
    ]

    -- No statement of any client brings the job back to an old revision.
    pub Step-IsPast : {q r : Queue} → Step db q r → IsPast db k revision q → IsPast db k revision r
    unfolding recover_stale_jobs claim_candidate complete fail
    Step-IsPast {q} (enqueued_by listing_id preserve now e) h = rw e (record {
      given = omega (arith, h.given);
      past = Later-enqueue listing_id preserve now q h.given h.past;
    })
    Step-IsPast {q} (recovered_at now e) h = rw e (record {
      given = h.given;
      past = Later-update _ _ (λ j p e. omega (arith, p e)) q.jobs h.past;
    })
    Step-IsPast {q} (claimed_by candidate now e) h =
        rw e (record { given = h.given; past = Later-update _ _ (λ j p. p) q.jobs h.past })
    Step-IsPast {q} (completed_by job now e) h =
        rw e (record { given = h.given; past = Later-update _ _ (λ j p. p) q.jobs h.past })
    Step-IsPast {q} (failed_by job message now e) h =
        rw e (record { given = h.given; past = Later-update _ _ (λ j p. p) q.jobs h.past })
    Step-IsPast {q} (retried_by job message now e) h =
        rw e (record { given = h.given; past = Later-retry job message now q.jobs h.past })
    Step-IsPast {q} (listing_deleted listing_id e) h =
        rw (e, db.delete_many_lem)
          (record { given = h.given; past = All-keep Later _ q.jobs h.past })

    pub Reach-IsPast :
        {q r : Queue} → Reach db q r → IsPast db k revision q → IsPast db k revision r
    Reach-IsPast here h = h
    Reach-IsPast (next path step) h = Step-IsPast step (Reach-IsPast path h)

  -- A statement on behalf of a job that is past touches no row.
  module _ (job : ClaimedModerationJob) (k : ℕ) (jobs : Jobs) where
    not_held :
        job.id ≡ db.cuid k
        → All (λ j. j.id ≡ db.cuid k → job.revision < j.revision) jobs
        → All (λ j. is_held job j ≡ false) jobs
    not_held e h = All-mono _ jobs (λ j p. refused j p) h
      where
        refused :
            (j : ListingModerationJob)
            → (j.id ≡ db.cuid k → job.revision < j.revision)
            → is_held job j ≡ false
        refused j p = ground (arith, eq_iff j.id job.id)

  retry-void :
      (job : ClaimedModerationJob) (jobs : Jobs) (message : String) (now : ℕ)
      → All (λ j. is_held job j ≡ false) jobs
      → (retry db job message now jobs).0 ≡ jobs
  unfolding retry
  retry-void job jobs message now h = elim (Bool-cases (leb max_attempts job.attempt_count)) [
    | inl spent ↦ rw (spent, db.update_many_rows, map_where-none _ _ jobs h)
    | inr again ↦ rw (again, db.update_many_rows, map_where-none _ _ jobs h)
  ]

  module _ (job : ClaimedModerationJob) (k : ℕ) (named : job.id ≡ db.cuid k) where
    -- The rows of the job are of its listing, at the revision of the claim or a later one.
    abbrev pub IsCurrent : Jobs → Type 0
    IsCurrent =
        All (λ j. j.id ≡ job.id → (j.listing_id ≡ job.listing_id) × (job.revision ≤ j.revision))

    requeued-past :
        (now : ℕ) (jobs : Jobs)
        → IsCurrent jobs
        → All
            (λ j. j.id ≡ db.cuid k → job.revision < j.revision)
            (map_where (of_listing job.listing_id) (requeued now) jobs)
    requeued-past now [] h = tt
    requeued-past now (j ∷ js) (p, h) = (moved, requeued-past now js h)
      where
        moved :
            (if of_listing job.listing_id j then requeued now j else j).id ≡ db.cuid k
            → job.revision < (if of_listing job.listing_id j then requeued now j else j).revision
        moved e = ground (arith, eq_iff j.listing_id job.listing_id, p)

    absent-past :
        (jobs : Jobs)
        → IsCurrent jobs
        → All (λ j. of_listing job.listing_id j ≡ false) jobs
        → All (λ j. j.id ≡ db.cuid k → job.revision < j.revision) jobs
    absent-past [] h a = tt
    absent-past (j ∷ js) (p, h) (a, as') = (moved, absent-past js h as')
      where
        moved : j.id ≡ db.cuid k → job.revision < j.revision
        moved e = ground (arith, eq_iff j.listing_id job.listing_id, p)

    -- An `enqueue` that does not preserve a running job leaves the claim behind.
    enqueued-IsPast :
        (now : ℕ) (q : Queue)
        → k < q.issued
        → IsCurrent q.jobs
        → IsPast db k job.revision (enqueued db job.listing_id false now q)
    enqueued-IsPast now q given h =
        elim (Option-cases (db.find_first (of_listing job.listing_id) [] q.jobs)) [
          | inl missing ↦ record {
            given = omega arith;
            past =
                rw (enqueue_missing _ now _ q.jobs missing, db.create_lem)
                  (All-append _ q.jobs _
                    (absent-past q.jobs h (db.find_first_complete _ [] q.jobs missing))
                    ((λ e. absurd (omega (arith, db.cuid_injective q.issued k e))), tt));
          }
          | inr (j, found) ↦ record {
            given = omega arith;
            past =
                rw (enqueue_found _ now _ q.jobs found, db.update_many_rows)
                  (requeued-past now q.jobs h);
          }
        ]

    -- A claim that was superseded is void: once the listing of a claimed job was queued anew, and
    -- whatever statements of whatever clients followed, the worker that holds the claim can neither
    -- complete, nor fail, nor retry the job: each of the three leaves the table as it was.
    pub superseded_claim_is_void :
        (now : ℕ) (q r : Queue)
        → k < q.issued
        → IsCurrent q.jobs
        → Reach db (enqueued db job.listing_id false now q) r
        → (message : String) (later : ℕ)
        → ((complete db job later r.jobs).0 ≡ r.jobs)
          × ((fail db job message later r.jobs).0 ≡ r.jobs)
          × ((retry db job message later r.jobs).0 ≡ r.jobs)
    unfolding complete fail
    superseded_claim_is_void now q r given h path message later =
        let past = Reach-IsPast k job.revision path (enqueued-IsPast now q given h) in
        let untouched = not_held job k r.jobs named past.past in
        (
          rw (db.update_many_rows, map_where-none _ _ r.jobs untouched),
          rw (db.update_many_rows, map_where-none _ _ r.jobs untouched),
          retry-void job r.jobs message later untouched,
        )
