-- ===== src/Tests/Jobs.antt =====
-- The queue of moderation jobs at concrete tables.
use nestjs_learn.Prelude.{
  map_where, ◌≡◌, refl, ◌∙◌, sym, ◌↔◌, true, false, none, some, [], ◌∷◌, Memᴰ, arith, All,
  map_where,
}
use nestjs_learn.Prisma.{before}
use nestjs_learn.Prisma.Memory.{memory}
use nestjs_learn.Schema.{ListingModerationJob, ModerationJobStatus}
use nestjs_learn.Moderation.Jobs.{
  ClaimedModerationJob, new_job, started, as_claimed, of_id, is_due, is_held, claim_order, enqueue,
  claim_next_job, recover_stale_jobs, find_candidate, claim_candidate, read_claimed, complete, fail,
  retry,
}
use nestjs_learn.Moderation.Jobs.Fencing.{Queue, enqueued, Reach, superseded_claim_is_void}
use nestjs_learn.Moderation.Jobs.Claims.{HasIds, claim_next_job-claims, claim_next_job-none_iff}
use nestjs_learn.Moderation.Jobs.Outcomes.{Retried, retry_lem}
use nestjs_learn.Moderation.Jobs.Race.{race_shares_a_claim}

-- A job that is due, and the same job claimed.
abbrev waiting : ListingModerationJob
waiting = new_job (memory.cuid 0) "l1" 100

abbrev busy : ListingModerationJob
busy = started 120 waiting

abbrev claim : ClaimedModerationJob
claim = as_claimed busy

HasIds-one : (j : ListingModerationJob) → HasIds (j ∷ [])
HasIds-one j a b (Memᴰ.head e) (Memᴰ.head e') h = e ∙ sym e'
HasIds-one j a b (Memᴰ.head e) (Memᴰ.tail m) h = elim m [ ]
HasIds-one j a b (Memᴰ.tail m) n h = elim m [ ]

-- The second of two due jobs is claimed, since it is due earlier.
claim_earliest :
    let later = new_job "j2" "l2" 110 in
    claim_next_job memory true 150 (later ∷ waiting ∷ [])
    ≡ (later ∷ started 150 waiting ∷ [], some (as_claimed (started 150 waiting)))
unfolding claim_next_job memory
claim_earliest = refl

claim_one :
    claim_next_job memory true 150 (waiting ∷ [])
    ≡ (started 150 waiting ∷ [], some (as_claimed (started 150 waiting)))
unfolding claim_next_job memory
claim_one = refl

claim_next_job-claims_example :
    let ready = (recover_stale_jobs memory 150 (waiting ∷ [])).0 in
    (j : ListingModerationJob) × Memᴰ j ready
    × (is_due 150 j ≡ true)
    × All (λ x. is_due 150 x ≡ true → before claim_order x j ≡ false) ready
    × (as_claimed (started 150 waiting) ≡ as_claimed (started 150 j))
    × (started 150 waiting ∷ [] ≡ map_where (of_id j.id) (started 150) ready)
claim_next_job-claims_example =
    claim_next_job-claims memory 150 (waiting ∷ []) (started 150 waiting ∷ [])
      (as_claimed (started 150 waiting)) (HasIds-one waiting) claim_one

claim_next_job-none_iff_example :
    ((claim_next_job memory true 50 (waiting ∷ [])).1 ≡ none)
    ↔ All (λ j. is_due 50 j ≡ false) (recover_stale_jobs memory 50 (waiting ∷ [])).0
claim_next_job-none_iff_example =
    claim_next_job-none_iff memory 50 (waiting ∷ []) (HasIds-one waiting)

abbrev queue : Queue
queue = record { jobs = busy ∷ []; issued = 1 }

superseded_claim_is_void_example :
    let r = enqueued memory "l1" false 130 queue in
    ((complete memory claim 140 r.jobs).0 ≡ r.jobs)
    × ((fail memory claim "late" 140 r.jobs).0 ≡ r.jobs)
    × ((retry memory claim "late" 140 r.jobs).0 ≡ r.jobs)
superseded_claim_is_void_example =
    superseded_claim_is_void memory claim 0 refl 130 queue (enqueued memory "l1" false 130 queue)
      (omega arith) ((λ _. (refl, omega arith)), tt) Reach.here "late" 140

-- The claim that was not superseded completes.
claim_completes :
    (complete memory claim 140 (busy ∷ [])).0
    ≡ record busy { status = ModerationJobStatus.completed; next_run_at = 140; updated_at = 140 }
      ∷ []
unfolding complete memory
claim_completes = refl

abbrev put_back : ListingModerationJob
put_back = record busy {
  status = ModerationJobStatus.pending;
  next_run_at = 15_140;
  last_error = some "slow";
  updated_at = 140;
}

retry_puts_back : (retry memory claim "slow" 140 (busy ∷ [])).0 ≡ put_back ∷ []
unfolding retry memory
retry_puts_back = refl

retry_lem_example :
    (f : ListingModerationJob → ListingModerationJob) × ((retry memory claim "slow" 140
        (busy ∷ [])).0
      ≡ map_where (is_held claim) f (busy ∷ []))
    × ((j : ListingModerationJob) → Retried claim "slow" 140 j (f j))
retry_lem_example = retry_lem memory claim "slow" 140 (busy ∷ []) (omega arith)

race_shares_a_claim_example :
    let between =
      (enqueue memory "l1" false 150 "j9"
        (claim_candidate memory waiting 150 (waiting ∷ [])).0).0 in
    (second : ListingModerationJob) × (find_candidate memory 150 between ≡ some second)
    × (let after = (claim_candidate memory second 150 between).0 in
        (a b : ClaimedModerationJob) × (read_claimed memory waiting.id between ≡ some a)
        × (read_claimed memory second.id after ≡ some b)
        × (r : ListingModerationJob) × (after ≡ r ∷ [])
        × (is_held a r ≡ true)
        × (is_held b r ≡ true))
race_shares_a_claim_example = race_shares_a_claim memory waiting 150 "j9" refl (omega arith)
