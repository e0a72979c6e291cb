-- ===== src/Admin.antt =====
-- src/modules/admin/admin.service.ts and src/modules/reports/reports.service.ts: reports on listings,
-- and what administrators decide. The methods take the reading of the clock.
pub mod Resolution
pub mod Reports
use nestjs_learn.Prelude.{
  ℕ, ◌+◌, ◌-◌, ◌*◌, Bool, true, false, not, Option, none, some, List, [], ◌∷◌, map, String, ◌==◌,
  if◌then◌else◌,
}
use nestjs_learn.Prisma.{Prisma, desc}
use nestjs_learn.Schema.{Listing, Report, ReportStatus, ApprovalStatus, same_approval}
use nestjs_learn.Text.{Unicode, trim}
use nestjs_learn.World.{
  World, M, Result, ok, err, Exception, bad_request, not_found, ◌>>=◌, ◌>>◌, pure, throw, lift,
  gets, modify, require, throw_if, skip, fresh,
}
use nestjs_learn.Pagination.{Paging, Paged, meta_of}
use nestjs_learn.Moderation.Jobs
use nestjs_learn.Moderation.Types.{ModerationJobStatusView}
use nestjs_learn.Moderation.Workflow
use nestjs_learn.Listings.Types.{FrontendListing}
use nestjs_learn.Listings.Mapper.{map_listing_to_frontend}
use nestjs_learn.Listings.Store.{by_id, include_all}

-- `status.toLowerCase()`.
abbrev pub lower_report_status : ReportStatus → String
lower_report_status ReportStatus.pending = "pending"
lower_report_status ReportStatus.reviewed = "reviewed"
lower_report_status ReportStatus.resolved = "resolved"

-- The answer of the reports service.
pub record CreatedReport : Type 0 where
  pub id : String
  pub status : String
  pub reason : String
  pub created_at : ℕ
  pub listing_id : String
  pub reported_by_id : String

abbrev pub has_report_id : String → Report → Bool
has_report_id id r = r.id == id

abbrev pub with_report_status : ReportStatus → ℕ → Report → Report
with_report_status status now r = record r { status = status; updated_at = now }

abbrev pub turned_down : ℕ → Listing → Listing
turned_down now l = record l { approval_status = ApprovalStatus.rejected; updated_at = now }

unfoldable pub parse_report_status : Unicode → String → Result ReportStatus
parse_report_status u value =
    let normalized = u.to_lower (trim value) in
    if normalized == "pending"
    then ok ReportStatus.pending
    else if normalized == "reviewed"
    then ok ReportStatus.reviewed
    else if normalized == "resolved"
    then ok ReportStatus.resolved
    else err (bad_request "Invalid report status")

module _ (db : Prisma) (now : ℕ) where
  -- `create` of the reports service: the listing, and the reason.
  unfoldable pub create_report : String → String → String → M CreatedReport
  create_report user_id listing_id reason = do
    found ← gets (λ w. db.find_first (by_id listing_id) [] w.listings)
    listing ← require found (not_found "Listing not found")
    throw_if (listing.seller_id == user_id) (bad_request "Cannot report your own listing")
    id ← fresh db
    let row : Report = record {
      id = id;
      reason = trim reason;
      status = ReportStatus.pending;
      listing_id = listing_id;
      reported_by_id = user_id;
      created_at = now;
      updated_at = now;
    }
    modify (λ w. record w { reports = db.create row w.reports })
    pure (record {
      id = row.id;
      status = lower_report_status row.status;
      reason = row.reason;
      created_at = row.created_at;
      listing_id = row.listing_id;
      reported_by_id = row.reported_by_id;
    })

  abbrev pub is_pending_listing : Listing → Bool
  is_pending_listing l = same_approval l.approval_status ApprovalStatus.pending

  unfoldable pub pending_listings : Paging → M (Paged FrontendListing)
  unfolding include_all map_listing_to_frontend
  pending_listings query = do
    total ← gets (λ w. db.count_rows is_pending_listing w.listings)
    rows ← gets (λ w.
        db.find_page is_pending_listing (desc (λ l. l.created_at) ∷ [])
          ((query.page - 1) * query.limit) query.limit w.listings)
    listings ← include_all db rows
    pure (record {
      data_rows = map (λ l. map_listing_to_frontend l none) listings;
      meta = meta_of total query;
    })

  unfoldable pub approve_listing : String → M String
  unfolding Workflow.approve_listing
  approve_listing id = do Workflow.approve_listing db now id; pure "Listing approved"

  unfoldable pub reject_listing : String → M String
  unfolding Workflow.reject_listing
  reject_listing id = do Workflow.reject_listing db now id; pure "Listing rejected"

  -- The status of the job is what the answer is about.
  unfoldable pub rerun_moderation : Bool → String → M ModerationJobStatusView
  unfolding Jobs.enqueue
  rerun_moderation enabled id = do
    throw_if (not enabled) (bad_request "AI moderation is disabled")
    found ← gets (λ w. db.find_first (by_id id) [] w.listings)
    listing ← require found (not_found "Listing not found")
    job_id ← fresh db
    (λ w.
        let (jobs, status) = Jobs.enqueue db id true now job_id w.jobs in
        pure status (record w { jobs = jobs }))

  unfoldable pub resolve_report : String → M String
  resolve_report id = do
    found ← gets (λ w. db.find_first (has_report_id id) [] w.reports)
    report ← require found (not_found "Report not found")
    modify (λ w. record w {
      reports =
          (db.update_many (has_report_id id) (with_report_status ReportStatus.resolved now)
            w.reports).0;
      listings = (db.update_many (by_id report.listing_id) (turned_down now) w.listings).0;
    })
    pure "Report resolved"

  unfoldable pub dismiss_report : String → M String
  dismiss_report id = do
    found ← gets (λ w. db.find_first (has_report_id id) [] w.reports)
    report ← require found (not_found "Report not found")
    modify (λ w. record w {
      reports =
          (db.update_many (has_report_id id) (with_report_status ReportStatus.reviewed now)
            w.reports).0;
    })
    pure "Report reviewed"
