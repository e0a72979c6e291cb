-- ===== src/Notifications/Read.antt =====
-- Reading notifications: what the marks change, and for whom.
use nestjs_learn.Prelude.{
  ◌≡◌, ◌≢◌, refl, ◌∙◌, ◌↔◌, ap, Bool, false, ◌&&◌, List, [], ◌∷◌, String, arith, count,
  count-map_where, map_where, map_where-none, if◌then◌else◌, ◌==◌, eq_iff, All, All-of_count,
  nat_eq, count-none,
}
use nestjs_learn.Prisma.{Prisma}
use nestjs_learn.Schema.{Notification}
use nestjs_learn.World.{World, ok, err, Result, not_found}
use nestjs_learn.Notifications.{is_unread_of, with_read, mark_read, mark_all_read, count_unread}

module _ (db : Prisma) where
  read_all :
      (user : String) (n : Notification)
      → is_unread_of user (if is_unread_of user n then with_read n else n) ≡ false
  read_all user n = ground arith

  none_left :
      (user : String) (rows : List Notification)
      → count (is_unread_of user) (map_where (is_unread_of user) with_read rows) ≡ 0
  none_left user [] = refl
  none_left user (n ∷ rows) = rw (read_all user n, none_left user rows)

  -- Marking all as read answers with the number of unread notifications that the user had, leaves
  -- the user with none, and does not change the number of any other user.
  pub mark_all_read-counts :
      (user other : String) (w : World)
      → user ≢ other
      → ((mark_all_read db user w).0 ≡ (count_unread db user w).0)
        × ((count_unread db user (mark_all_read db user w).1).0 ≡ ok 0)
        × ((count_unread db other (mark_all_read db user w).1).0 ≡ (count_unread db other w).0)
  unfolding mark_all_read count_unread
  mark_all_read-counts user other w apart = (
    rw (db.update_many_count, db.count_rows_lem),
    rw (db.update_many_rows, db.count_rows_lem, none_left user w.notifications),
    rw (db.update_many_rows, db.count_rows_lem, db.count_rows_lem)
        (ap ok (
          count-map_where (is_unread_of other) (is_unread_of other) (is_unread_of user) with_read
            w.notifications unchanged)),
  )
    where
      unchanged :
          (n : Notification)
          → is_unread_of other (if is_unread_of user n then with_read n else n)
            ≡ is_unread_of other n
      unchanged n = ground (arith, eq_iff n.user_id user, eq_iff n.user_id other, apart)

  module _ (id user : String) (w : World) where
    abbrev own : Notification → Bool
    own n = n.id == id && n.user_id == user

    abbrev missing : Result String
    missing = err (not_found "Notification not found")

    mark_read-reply : (mark_read db id user w).0 ≡ (
        if nat_eq (count own w.notifications) 0 then missing else ok "Notification marked as read")
    unfolding mark_read
    mark_read-reply = ground (arith, db.update_many_count own with_read w.notifications)

    mark_read-table :
        (mark_read db id user w).1.notifications ≡ map_where own with_read w.notifications
    unfolding mark_read
    mark_read-table = ground (arith, db.update_many_rows own with_read w.notifications)

    missing-none : (mark_read db id user w).0 ≡ missing → All (λ n. own n ≡ false) w.notifications
    missing-none e = let reply = mark_read-reply in All-of_count own w.notifications (ground arith)

    none-missing : All (λ n. own n ≡ false) w.notifications → (mark_read db id user w).0 ≡ missing
    none-missing h = ground (arith, mark_read-reply, count-none own w.notifications h)

    -- Marking one notification as read fails with 404 exactly when the user has none of that
    -- identifier, and then leaves the table as it was; in every case the number of unread
    -- notifications of any other user stays.
    pub mark_read-own :
        (other : String)
        → user ≢ other
        → ((mark_read db id user w).0 ≡ err (not_found "Notification not found")
            ↔ All (λ n. (n.id == id && n.user_id == user) ≡ false) w.notifications)
          × ((mark_read db id user w).0 ≡ err (not_found "Notification not found")
              → (mark_read db id user w).1.notifications ≡ w.notifications)
          × ((count_unread db other (mark_read db id user w).1).0 ≡ (count_unread db other w).0)
    unfolding count_unread
    mark_read-own other apart = (
      (missing-none, none-missing),
      (λ e. mark_read-table ∙ map_where-none own with_read w.notifications (missing-none e)),
      rw (mark_read-table, db.count_rows_lem, db.count_rows_lem)
          (ap ok (
            count-map_where (is_unread_of other) (is_unread_of other) own with_read w.notifications
              unchanged)),
    )
      where
        unchanged :
            (n : Notification)
            → is_unread_of other (if own n then with_read n else n) ≡ is_unread_of other n
        unchanged n = ground (arith, eq_iff n.user_id user, eq_iff n.user_id other, apart)
