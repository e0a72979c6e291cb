-- ===== src/Tests/Decisions.antt =====
-- A report at a concrete world.
use nestjs_learn.Prelude.{◌≡◌, refl, ◌∷◌, [], All, Memᴰ}
use nestjs_learn.Prisma.Memory.{memory}
use nestjs_learn.Schema.{Report, ReportStatus, ApprovalStatus}
use nestjs_learn.World.{World, ok}
use nestjs_learn.Admin.{resolve_report}
use nestjs_learn.Admin.Resolution.{resolve_report_rejects}
use nestjs_learn.Tests.Worlds.{empty_world, novel}

abbrev complaint : Report
complaint = record {
  id = "r1";
  reason = "A copy";
  status = ReportStatus.pending;
  listing_id = "l1";
  reported_by_id = "bob";
  created_at = 5;
  updated_at = 5;
}

abbrev accused : World
accused = record empty_world { listings = novel ∷ []; reports = complaint ∷ [] }

abbrev judged : World
judged = (resolve_report memory 20 "r1" accused).1

resolves_complaint : resolve_report memory 20 "r1" accused ≡ (ok "Report resolved", judged)
unfolding resolve_report memory
resolves_complaint = refl

resolve_report_rejects_example :
    (report : Report) × Memᴰ report accused.reports
    × (report.id ≡ "r1")
    × All (λ r. r.id ≡ "r1" → r.status ≡ ReportStatus.resolved) judged.reports
    × All
        (λ l. l.id ≡ report.listing_id → l.approval_status ≡ ApprovalStatus.rejected)
        judged.listings
    × (judged.notifications ≡ accused.notifications)
resolve_report_rejects_example =
    resolve_report_rejects memory 20 "r1" "Report resolved" accused judged resolves_complaint
