-- ===== src/Admin/Resolution.antt =====
-- What the resolution of a report does to the listing.
use nestjs_learn.Prelude.{
  ℕ, ◌≡◌, sym, subst, List, [], ◌∷◌, Memᴰ, String, arith, Option-cases, inl, inr, All, map_where,
  eq_iff,
}
use nestjs_learn.Prisma.{Prisma}
use nestjs_learn.Schema.{Listing, Report, ReportStatus, ApprovalStatus}
use nestjs_learn.World.{World, ok}
use nestjs_learn.Listings.Store.{by_id}
use nestjs_learn.Admin.{has_report_id, with_report_status, turned_down, resolve_report}

module _ (now : ℕ) (id : String) where
  listings_turned_down :
      (rows : List Listing)
      → All
          (λ l. l.id ≡ id → l.approval_status ≡ ApprovalStatus.rejected)
          (map_where (by_id id) (turned_down now) rows)
  listings_turned_down [] = tt
  listings_turned_down (l ∷ rows) =
      ((λ same. ground (arith, eq_iff l.id id)), listings_turned_down rows)

  reports_resolved :
      (rows : List Report)
      → All
          (λ r. r.id ≡ id → r.status ≡ ReportStatus.resolved)
          (map_where (has_report_id id) (with_report_status ReportStatus.resolved now) rows)
  reports_resolved [] = tt
  reports_resolved (r ∷ rows) = ((λ same. ground (arith, eq_iff r.id id)), reports_resolved rows)

-- Where `resolveReport` succeeds, the report was in the table, every row of its identifier is
-- resolved, and every row of the listing that it is about is rejected; its seller gets no
-- notification.
pub resolve_report_rejects :
    (db : Prisma) (now : ℕ) (id message : String) (w w' : World)
    → resolve_report db now id w ≡ (ok message, w')
    → (report : Report) × Memᴰ report w.reports
      × (report.id ≡ id)
      × All (λ r. r.id ≡ id → r.status ≡ ReportStatus.resolved) w'.reports
      × All
          (λ l. l.id ≡ report.listing_id → l.approval_status ≡ ApprovalStatus.rejected)
          w'.listings
      × (w'.notifications ≡ w.notifications)
unfolding resolve_report
resolve_report_rejects db now id message w w' e =
    elim (Option-cases (db.find_first (has_report_id id) [] w.reports)) [
      | inl missing ↦ absurd (ground arith)
      | inr (report, found) ↦
          let (m, same) = db.find_first_sound (has_report_id id) [] w.reports report found in
          let set = with_report_status ReportStatus.resolved now in
          let reports : w'.reports ≡ map_where (has_report_id id) set w.reports =
            ground (arith, db.update_many_rows (has_report_id id) set w.reports) in
          let listings : w'.listings
              ≡ map_where (by_id report.listing_id) (turned_down now) w.listings =
            ground
              (arith, db.update_many_rows (by_id report.listing_id) (turned_down now) w.listings) in
          (
            report,
            m,
            (eq_iff report.id id).0 same,
            subst (All (λ r. r.id ≡ id → r.status ≡ ReportStatus.resolved)) (sym reports)
                (reports_resolved now id w.reports),
            subst
                (All (λ l. l.id ≡ report.listing_id → l.approval_status ≡ ApprovalStatus.rejected))
                (sym listings) (listings_turned_down now report.listing_id w.listings),
            ground arith,
          )
    ]
