-- ===== src/Moderation/Jobs/Queued.antt =====
-- What the queue answers on a listing that was queued.
use nestjs_learn.Prelude.{
  ℕ, ◌≡◌, ap, true, false, none, some, [], ◌∷◌, ◌++◌, Memᴰ, String, arith, Option-cases, inl, inr,
  All-at, ◌⊎◌, mem-append_last, mem-map_where, map_where-mem, eq_refl, map_where,
}
use nestjs_learn.Prisma.{Prisma}
use nestjs_learn.Prisma.Laws.{find_first_of_mem}
use nestjs_learn.Schema.{ListingModerationJob, ModerationJobStatus}
use nestjs_learn.Moderation.Types.{ModerationJobStatusView}
use nestjs_learn.Moderation.Jobs.{
  Jobs, of_listing, new_job, requeued, map_status, enqueue, enqueue_existing,
  get_status_for_listing,
}

module _ (db : Prisma) (listing_id : String) where
  -- Where some job of the listing is there and every one is pending, the queue answers `pending`.
  pending_of_all :
      (jobs : Jobs) (j : ListingModerationJob)
      → Memᴰ j jobs
      → of_listing listing_id j ≡ true
      → ((x : ListingModerationJob)
          → Memᴰ x jobs
          → of_listing listing_id x ≡ true
          → x.status ≡ ModerationJobStatus.pending)
      → get_status_for_listing db listing_id jobs ≡ some ModerationJobStatusView.pending
  unfolding get_status_for_listing map_status
  pending_of_all jobs j m h all =
      let (x, first, mx, passed) = find_first_of_mem db (of_listing listing_id) [] jobs j m h in
      let waiting = all x mx passed in ground arith

  module _ (now : ℕ) (id : String) (jobs : Jobs) where
    queued_new :
        db.find_first (of_listing listing_id) [] jobs ≡ none
        → get_status_for_listing db listing_id (db.create (new_job id listing_id now) jobs)
          ≡ some ModerationJobStatusView.pending
    queued_new absent = rw (db.create_lem (new_job id listing_id now) jobs) (
        pending_of_all _ (new_job id listing_id now) (mem-append_last jobs _) (eq_refl listing_id)
          only)
      where
        cases_of_append :
            (xs : Jobs) (x y : ListingModerationJob) → Memᴰ x (xs ++ y ∷ []) → Memᴰ x xs ⊎ (x ≡ y)
        cases_of_append [] x y (Memᴰ.head e) = inr e
        cases_of_append [] x y (Memᴰ.tail n) = elim n [ ]
        cases_of_append (z ∷ xs) x y (Memᴰ.head e) = inl (Memᴰ.head e)
        cases_of_append (z ∷ xs) x y (Memᴰ.tail n) = elim (cases_of_append xs x y n) [
          | inl m ↦ inl (Memᴰ.tail m)
          | inr e ↦ inr e
        ]

        only :
            (x : ListingModerationJob)
            → Memᴰ x (jobs ++ new_job id listing_id now ∷ [])
            → of_listing listing_id x ≡ true
            → x.status ≡ ModerationJobStatus.pending
        only x m h = elim (cases_of_append jobs x _ m) [
          | inl old ↦
              let other = All-at _ jobs (db.find_first_complete _ [] jobs absent) old in
              absurd (ground arith)
          | inr same ↦ ap (λ (j : ListingModerationJob). j.status) same
        ]

    queued_again :
        (j : ListingModerationJob)
        → db.find_first (of_listing listing_id) [] jobs ≡ some j
        → get_status_for_listing db listing_id
            (db.update_many (of_listing listing_id) (requeued now) jobs).0
          ≡ some ModerationJobStatusView.pending
    queued_again j first =
        let (m, passed) = db.find_first_sound (of_listing listing_id) [] jobs j first in
        let there = map_where-mem (of_listing listing_id) (requeued now) jobs m in
        let moved : Memᴰ (requeued now j) (map_where (of_listing listing_id) (requeued now) jobs) =
          rw passed at there in
        rw (db.update_many_rows (of_listing listing_id) (requeued now) jobs)
          (pending_of_all _ (requeued now j) moved passed only)
      where
        only :
            (x : ListingModerationJob)
            → Memᴰ x (map_where (of_listing listing_id) (requeued now) jobs)
            → of_listing listing_id x ≡ true
            → x.status ≡ ModerationJobStatus.pending
        only x m h =
            let (y, my, e) = mem-map_where (of_listing listing_id) (requeued now) jobs m in
            ground arith

    -- Once `enqueue` ran without `preserveRunning`, the status of the listing's job is `pending`,
    -- whatever it was.
    pub enqueue-get_status :
        get_status_for_listing db listing_id (enqueue db listing_id false now id jobs).0
        ≡ some ModerationJobStatusView.pending
    unfolding enqueue enqueue_existing
    enqueue-get_status = elim (Option-cases (db.find_first (of_listing listing_id) [] jobs)) [
      | inl absent ↦
          let new : (enqueue db listing_id false now id jobs).0
              ≡ db.create (new_job id listing_id now) jobs =
            ground arith in
          rw new (queued_new absent)
      | inr (j, first) ↦
          let again : (enqueue db listing_id false now id jobs).0
              ≡ (db.update_many (of_listing listing_id) (requeued now) jobs).0 =
            ground arith in
          rw again (queued_again j first)
    ]
