-- ===== src/Moderation/Jobs/Claims.antt =====
-- What `claimNextJob` claims, where no other client runs in between.
use nestjs_learn.Prelude.{
  ℕ, ◌≡◌, refl, sym, ◌∙◌, ap, subst, ◌↔◌, Bool, true, false, none, some, [], Memᴰ, ◌<◌, arith, All,
  All-of_mem, All-at, map_where, map_where_cong, map_where-mem, mem-map_where, count-pos_of_mem,
  if◌then◌else◌, ◌==◌, eq_iff, eq_refl, Option-cases, Bool-cases, inl, inr,
}
use nestjs_learn.Prisma.{Prisma, before}
use nestjs_learn.Prisma.Laws.{find_first_unique}
use nestjs_learn.Schema.{ListingModerationJob, is_pending}
use nestjs_learn.Moderation.Jobs.{
  ClaimedModerationJob, Jobs, of_id, is_due, is_claimable, started, recovered, is_stale, as_claimed,
  claim_order, recover_stale_jobs, find_candidate, claim_candidate, read_claimed, claim_found,
  claim_due, claim_next_job,
}

-- The identifiers are a primary key.
abbrev pub HasIds : Jobs → Type 0
HasIds jobs = (a b : ListingModerationJob) → Memᴰ a jobs → Memᴰ b jobs → a.id ≡ b.id → a ≡ b

-- An update that leaves the identifiers alone keeps them a key.
HasIds-map_where :
    (test : ListingModerationJob → Bool) (f : ListingModerationJob → ListingModerationJob)
    → ((j : ListingModerationJob) → (f j).id ≡ j.id)
    → (jobs : Jobs) → HasIds jobs
    → HasIds (map_where test f jobs)
HasIds-map_where test f same jobs key a b ma mb e =
    let (x, mx, ex) = mem-map_where test f jobs ma in
    let (y, my, ey) = mem-map_where test f jobs mb in
    let x-y = key x y mx my (ids x ex ∙ e ∙ sym (ids y ey)) in
    ex ∙ ap (λ z. if test z then f z else z) x-y ∙ sym ey
  where
    kept : (z : ListingModerationJob) (c : Bool) → z.id ≡ (if c then f z else z).id
    kept z true = sym (same z)
    kept z false = refl

    ids :
        (z : ListingModerationJob) {w : ListingModerationJob}
        → w ≡ (if test z then f z else z)
        → z.id ≡ w.id
    ids z e = kept z (test z) ∙ ap (λ (j : ListingModerationJob). j.id) (sym e)

module _ (db : Prisma) where
  module _ (candidate : ListingModerationJob) (now : ℕ) (jobs : Jobs) (key : HasIds jobs)
      (listed : Memᴰ candidate jobs) (pending : is_pending candidate.status ≡ true) where
    abbrev pub claimed_table : Jobs
    claimed_table = map_where (of_id candidate.id) (started now) jobs

    -- The guard on the status and the revision passes exactly for the candidate.
    claimable-eq_of_id : All (λ j. is_claimable candidate j ≡ of_id candidate.id j) jobs
    claimable-eq_of_id = All-of_mem _ jobs λ j m. elim (Bool-cases (j.id == candidate.id)) [
      | inl same ↦
          let e = key j candidate m listed ((eq_iff _ _).0 same) in
          subst (λ z. is_claimable candidate z ≡ of_id candidate.id z) (sym e) (ground arith)
      | inr other ↦ rw other
    ]

    claim_candidate-table : (claim_candidate db candidate now jobs).0 ≡ claimed_table
    unfolding claim_candidate
    claim_candidate-table =
        rw db.update_many_rows (map_where_cong _ _ (started now) jobs claimable-eq_of_id)

    -- The row of the candidate after the claim is the only one with its identifier.
    read_claimed_table :
        read_claimed db candidate.id claimed_table ≡ some (as_claimed (started now candidate))
    unfolding read_claimed
    read_claimed_table =
        let found =
          find_first_unique db (of_id candidate.id) [] claimed_table (started now candidate) member
            (eq_refl candidate.id)
            (λ x m h. key' x (started now candidate) m member ((eq_iff _ _).0 h)) in
        rw (found, read_claimed)
      where
        member : Memᴰ (started now candidate) claimed_table
        member =
            subst (λ b. Memᴰ (if b then started now candidate else candidate) claimed_table)
              (eq_refl candidate.id) (map_where-mem (of_id candidate.id) (started now) jobs listed)

        key' : HasIds claimed_table
        key' = HasIds-map_where (of_id candidate.id) (started now) (λ j. refl) jobs key

    claim_candidate-count : 0 < (claim_candidate db candidate now jobs).1
    unfolding claim_candidate
    claim_candidate-count = rw db.update_many_count (
        count-pos_of_mem (is_claimable candidate) jobs listed
          (All-at _ jobs claimable-eq_of_id listed ∙ eq_refl candidate.id))

    claim_found_lem :
        claim_found db candidate now jobs
        ≡ (claimed_table, some (as_claimed (started now candidate)))
    unfolding claim_found
    claim_found_lem =
        ground (arith, claim_candidate-table, claim_candidate-count, read_claimed_table)

  claim_due-claims :
      (now : ℕ) (jobs jobs' : Jobs) (claimed : ClaimedModerationJob)
      → HasIds jobs
      → claim_due db now jobs ≡ (jobs', some claimed)
      → (j : ListingModerationJob) × Memᴰ j jobs
        × (is_due now j ≡ true)
        × All (λ x. is_due now x ≡ true → before claim_order x j ≡ false) jobs
        × (claimed ≡ as_claimed (started now j))
        × (jobs' ≡ map_where (of_id j.id) (started now) jobs)
  unfolding claim_due find_candidate
  claim_due-claims now jobs jobs' claimed key e =
      elim (Option-cases (db.find_first (is_due now) claim_order jobs)) [
        | inl missing ↦ absurd (ground (arith, missing))
        | inr (j, found) ↦
            let (m, due) = db.find_first_sound (is_due now) claim_order jobs j found in
            let pending : is_pending j.status ≡ true = ground arith in
            let result = claim_found_lem j now jobs key m pending in
            (
              j,
              m,
              due,
              db.find_first_minimal (is_due now) claim_order jobs j found,
              ground arith,
              ground arith,
            )
      ]

  recovered-HasIds :
      (now : ℕ) (jobs : Jobs) → HasIds jobs → HasIds (recover_stale_jobs db now jobs).0
  unfolding recover_stale_jobs
  recovered-HasIds now jobs key =
      rw db.update_many_rows (HasIds-map_where (is_stale now) (recovered now) (λ j. refl) jobs key)

  -- `claimNextJob` hands out a job that was pending and due once the stale jobs were recovered, and
  -- that no due job precedes by its time and its age; the worker gets its revision, and the number
  -- of attempts with this one. In the table that job, and no other, has become a running one.
  pub claim_next_job-claims :
      (now : ℕ) (jobs jobs' : Jobs) (claimed : ClaimedModerationJob)
      → HasIds jobs
      → claim_next_job db true now jobs ≡ (jobs', some claimed)
      → let ready = (recover_stale_jobs db now jobs).0 in
        (j : ListingModerationJob) × Memᴰ j ready
        × (is_due now j ≡ true)
        × All (λ x. is_due now x ≡ true → before claim_order x j ≡ false) ready
        × (claimed ≡ as_claimed (started now j))
        × (jobs' ≡ map_where (of_id j.id) (started now) ready)
  claim_next_job-claims now jobs jobs' claimed key e =
      claim_due-claims now (recover_stale_jobs db now jobs).0 jobs' claimed
        (recovered-HasIds now jobs key) (unfold claim_next_job in e)

  claim_due-none :
      (now : ℕ) (jobs : Jobs)
      → HasIds jobs
      → (claim_due db now jobs).1 ≡ none
      → All (λ j. is_due now j ≡ false) jobs
  unfolding claim_due find_candidate
  claim_due-none now jobs key e =
      elim (Option-cases (db.find_first (is_due now) claim_order jobs)) [
        | inl missing ↦ db.find_first_complete (is_due now) claim_order jobs missing
        | inr (j, found) ↦
            let (m, due) = db.find_first_sound (is_due now) claim_order jobs j found in
            let pending : is_pending j.status ≡ true = ground arith in
            let result = claim_found_lem j now jobs key m pending in absurd (ground arith)
      ]

  claim_due-idle :
      (now : ℕ) (jobs : Jobs)
      → All (λ j. is_due now j ≡ false) jobs
      → (claim_due db now jobs).1 ≡ none
  unfolding claim_due find_candidate
  claim_due-idle now jobs idle = elim (Option-cases (db.find_first (is_due now) claim_order jobs)) [
    | inl missing ↦ ground arith
    | inr (j, found) ↦
        let (m, due) = db.find_first_sound (is_due now) claim_order jobs j found in
        let not_due = All-at _ jobs idle m in cc
  ]

  -- A worker is sent away exactly when no job is pending and due after the recovery of the stale
  -- jobs: a waiting job is never overlooked.
  pub claim_next_job-none_iff :
      (now : ℕ) (jobs : Jobs)
      → HasIds jobs
      → ((claim_next_job db true now jobs).1 ≡ none)
        ↔ All (λ j. is_due now j ≡ false) (recover_stale_jobs db now jobs).0
  unfolding claim_next_job
  claim_next_job-none_iff now jobs key = (
    claim_due-none now (recover_stale_jobs db now jobs).0 (recovered-HasIds now jobs key),
    claim_due-idle now (recover_stale_jobs db now jobs).0,
  )
