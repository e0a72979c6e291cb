-- ===== src/Tests/Inbox.antt =====
-- Notifications and pages at concrete tables.
use nestjs_learn.Prelude.{
  List, ◌≡◌, ◌≢◌, refl, ◌↔◌, true, false, ◌&&◌, none, [], ◌∷◌, String, arith, All, ◌==◌, eq_iff,
}
use nestjs_learn.Prisma.Memory.{memory}
use nestjs_learn.Schema.{Notification}
use nestjs_learn.World.{World, ok, err, not_found}
use nestjs_learn.Notifications.{mark_read, mark_all_read, count_unread, mine_where, newest_first}
use nestjs_learn.Notifications.Read.{mark_all_read-counts, mark_read-own}
use nestjs_learn.Pagination.{find_paged}
use nestjs_learn.Pagination.Cover.{first_pages, pages_cover}
use nestjs_learn.Tests.Worlds.{empty_world, note}

abbrev inbox : World
inbox = record empty_world {
  notifications =
      note "n1" "ann" false
      ∷ note "n2" "bob" false
      ∷ note "n3" "ann" true
      ∷ note "n4" "ann" false
      ∷ [];
}

ann_is_not_bob : ◌≢◌ {A = String} "ann" "bob"
ann_is_not_bob = ground (arith, eq_iff "ann" "bob")

reads_two : (mark_all_read memory "ann" inbox).0 ≡ ok 2
unfolding mark_all_read memory
reads_two = refl

mark_all_read-counts_example :
    ((mark_all_read memory "ann" inbox).0 ≡ (count_unread memory "ann" inbox).0)
    × ((count_unread memory "ann" (mark_all_read memory "ann" inbox).1).0 ≡ ok 0)
    × ((count_unread memory "bob" (mark_all_read memory "ann" inbox).1).0
        ≡ (count_unread memory "bob" inbox).0)
mark_all_read-counts_example = mark_all_read-counts memory "ann" "bob" inbox ann_is_not_bob

mark_read-own_example :
    ((mark_read memory "n2" "ann" inbox).0 ≡ err (not_found "Notification not found")
      ↔ All (λ n. (n.id == "n2" && n.user_id == "ann") ≡ false) inbox.notifications)
    × ((mark_read memory "n2" "ann" inbox).0 ≡ err (not_found "Notification not found")
        → (mark_read memory "n2" "ann" inbox).1.notifications ≡ inbox.notifications)
    × ((count_unread memory "bob" (mark_read memory "n2" "ann" inbox).1).0
        ≡ (count_unread memory "bob" inbox).0)
mark_read-own_example = mark_read-own memory "n2" "ann" inbox "bob" ann_is_not_bob

-- Three notifications on pages of two.
second_page :
    (find_paged memory
      (mine_where "ann" none)
      newest_first
      (record { page = 2; limit = 2 })
      inbox.notifications).meta
    ≡ record { total = 3; page = 2; limit = 2; total_pages = 2 }
unfolding find_paged memory
second_page = refl

-- Three notifications of different times.
abbrev dated : List Notification
dated =
    note "n1" "ann" false
    ∷ record (note "n2" "ann" true) { created_at = 30 }
    ∷ record (note "n3" "ann" false) { created_at = 20 }
    ∷ []

pages_cover_example :
    first_pages memory
      (mine_where "ann" none)
      newest_first
      2
      dated
      (find_paged memory
        (mine_where "ann" none)
        newest_first
        (record { page = 1; limit = 2 })
        dated).meta.total_pages
    ≡ memory.find_many (mine_where "ann" none) newest_first dated
pages_cover_example =
    pages_cover memory (mine_where "ann" none) newest_first 2 dated (omega arith)
      ((refl, (refl, tt)), ((refl, tt), (tt, tt))) 1
