-- ===== src/Admin/Reports.antt =====
-- src/modules/admin/admin.service.ts: the list of reports.
use nestjs_learn.Prelude.{ℕ, ◌-◌, ◌*◌, Bool, true, Option, none, some, List, [], ◌∷◌, String, ◌==◌}
use nestjs_learn.Prisma.{Prisma, desc}
use nestjs_learn.Schema.{User, Report, ReportStatus}
use nestjs_learn.Text.{Unicode}
use nestjs_learn.World.{M, Result, ok, database, ◌>>=◌, pure, lift, gets, require}
use nestjs_learn.Pagination.{Paging, Paged, meta_of}
use nestjs_learn.Users.Mapper.{FrontendUser, map_user_to_frontend}
use nestjs_learn.Listings.Types.{ListingQueryDto, FrontendListing}
use nestjs_learn.Listings.Mapper.{map_listing_to_frontend}
use nestjs_learn.Listings.Input.{then_result}
use nestjs_learn.Listings.Query.{present}
use nestjs_learn.Listings.Store.{by_id}
use nestjs_learn.Listings.Shown.{shown_listing}
use nestjs_learn.Admin.{lower_report_status, parse_report_status}

pub record ReportView : Type 0 where
  pub id : String
  pub reason : String
  pub status : String
  pub created_at : ℕ
  pub product_id : String
  pub product : FrontendListing
  pub reported_by : FrontendUser

abbrev pub same_report_status : ReportStatus → ReportStatus → Bool
same_report_status s t = lower_report_status s == lower_report_status t

-- `query.status ? { status: … } : undefined`.
abbrev pub status_filter : Unicode → Option String → Result (Option ReportStatus)
status_filter u none = ok none
status_filter u (some s) = then_result (parse_report_status u s) (λ r. ok (some r))

abbrev pub has_status : Option ReportStatus → Report → Bool
has_status none r = true
has_status (some s) r = same_report_status r.status s

module _ (db : Prisma) where
  -- The `include` and the mapping of a report; the foreign keys make the rows be there.
  unfoldable pub show_report : Report → M ReportView
  unfolding shown_listing map_listing_to_frontend map_user_to_frontend
  show_report r = do
    found ← gets (λ w. db.find_first (by_id r.listing_id) [] w.listings)
    listing ← require found (database "listing")
    product ← shown_listing db listing
    found_user ← gets (λ w. db.find_first (λ (x : User). x.id == r.reported_by_id) [] w.users)
    user ← require found_user (database "reportedBy")
    pure (record {
      id = r.id;
      reason = r.reason;
      status = lower_report_status r.status;
      created_at = r.created_at;
      product_id = r.listing_id;
      product = map_listing_to_frontend product none;
      reported_by = map_user_to_frontend user;
    })

  unfoldable pub show_reports : List Report → M (List ReportView)
  unfolding show_report
  show_reports [] = pure List.[]
  show_reports (r ∷ rest) = do
    first ← show_report r
    others ← show_reports rest
    pure (first ∷ others)

  unfoldable pub reports : Unicode → ListingQueryDto → M (Paged ReportView)
  unfolding parse_report_status show_reports
  reports u query = do
    status ← lift (status_filter u (present query.status))
    let paging : Paging = record { page = query.page; limit = query.limit }
    total ← gets (λ w. db.count_rows (has_status status) w.reports)
    rows ← gets (λ w.
        db.find_page (has_status status) (desc (λ (r : Report). r.created_at) ∷ [])
          ((query.page - 1) * query.limit) query.limit w.reports)
    views ← show_reports rows
    pure (record { data_rows = views; meta = meta_of total paging })
