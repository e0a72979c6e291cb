-- ===== src/Moderation/Jobs/Race.antt =====
-- A race on a claim: what can happen between the statements of `claimNextJob`.
use nestjs_learn.Prelude.{
  ℕ, ◌≤◌, ◌≡◌, refl, ◌∙◌, true, false, some, [], ◌∷◌, String, arith, eq_refl,
}
use nestjs_learn.Prisma.{Prisma}
use nestjs_learn.Prisma.Laws.{find_first_singleton}
use nestjs_learn.Schema.{ListingModerationJob, is_pending}
use nestjs_learn.Moderation.Jobs.{
  ClaimedModerationJob, of_id, of_listing, is_due, is_held, started, requeued, as_claimed,
  claim_order, enqueue, find_candidate, claim_candidate, read_claimed,
}
use nestjs_learn.Moderation.Jobs.Fencing.{enqueue_found}

module _ (db : Prisma) where
  module _ (j : ListingModerationJob) (now : ℕ) (id : String) (pending : is_pending j.status ≡ true)
      (due : j.next_run_at ≤ now) where
    abbrev anew : ListingModerationJob
    anew = requeued now (started now j)

    claimed_first : (claim_candidate db j now (j ∷ [])).0 ≡ started now j ∷ []
    unfolding claim_candidate
    claimed_first = rw db.update_many_rows (ground (arith, eq_refl j.id))

    queued_between : (enqueue db j.listing_id false now id (started now j ∷ [])).0 ≡ anew ∷ []
    queued_between =
        enqueue_found db j.listing_id now id (started now j ∷ []) (
          find_first_singleton db (of_listing j.listing_id) [] (started now j)
            (eq_refl j.listing_id))
        ∙ rw db.update_many_rows (ground (arith, eq_refl j.listing_id))

    found_second : find_candidate db now (anew ∷ []) ≡ some anew
    unfolding find_candidate
    found_second = find_first_singleton db (is_due now) claim_order anew (ground arith)

    claimed_second : (claim_candidate db anew now (anew ∷ [])).0 ≡ started now anew ∷ []
    unfolding claim_candidate
    claimed_second = rw db.update_many_rows (ground (arith, eq_refl j.id))

    read_back : (r : ListingModerationJob) → read_claimed db r.id (r ∷ []) ≡ some (as_claimed r)
    unfolding read_claimed
    read_back r = rw (find_first_singleton db (of_id r.id) [] r (eq_refl r.id), read_claimed)

    -- A job is pending and due. `claimNextJob` claims it and reads it back in a later statement;
    -- where its listing is queued anew between the two, the first worker reads the new revision of
    -- the job, which is pending again. A second worker then finds and claims the same job, and in
    -- the table that results, whose only row is that job, both workers pass the guard on the
    -- identifier, the revision and the status.
    pub race_shares_a_claim :
        let between =
          (enqueue db j.listing_id false now id (claim_candidate db j now (j ∷ [])).0).0 in
        (second : ListingModerationJob) × (find_candidate db now between ≡ some second)
        × (let after = (claim_candidate db second now between).0 in
            (a b : ClaimedModerationJob) × (read_claimed db j.id between ≡ some a)
            × (read_claimed db second.id after ≡ some b)
            × (r : ListingModerationJob) × (after ≡ r ∷ [])
            × (is_held a r ≡ true)
            × (is_held b r ≡ true))
    race_shares_a_claim =
        rw (claimed_first, queued_between)
          (
            anew,
            found_second,
            rw claimed_second (
              as_claimed anew,
              as_claimed (started now anew),
              read_back anew,
              read_back (started now anew),
              started now anew,
              refl,
              ground (arith, eq_refl j.id),
              ground (arith, eq_refl j.id),
            ),
          )
