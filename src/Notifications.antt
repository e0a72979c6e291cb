-- ===== src/Notifications.antt =====
-- src/modules/notifications/notifications.service.ts. The gateway of `create` is the one of
-- notifications.gateway.ts once its server is up: it emits to the room of the user.
pub mod Read
use nestjs_learn.Prelude.{
  ℕ, Bool, true, false, not, ◌&&◌, Option, none, some, List, [], ◌∷◌, String, nat_eq, if◌then◌else◌,
  ◌==◌,
}
use nestjs_learn.Prisma.{Prisma, Order, desc}
use nestjs_learn.Schema.{Notification, NotificationType, Metadata}
use nestjs_learn.World.{
  World, M, Exception, not_found, notified, ◌>>=◌, ◌>>◌, pure, throw, lift, gets, modify, emit,
  fresh, throw_if,
}
use nestjs_learn.Pagination.{Paging, Paged, find_paged}

abbrev same_flag : Bool → Bool → Bool
same_flag true b = b
same_flag false b = not b

abbrev pub belongs_to : String → Notification → Bool
belongs_to user_id n = n.user_id == user_id

abbrev pub is_unread_of : String → Notification → Bool
is_unread_of user_id n = n.user_id == user_id && not n.is_read

-- The clause `{ userId, isRead: query.isRead }`: an undefined `isRead` filters nothing.
abbrev pub mine_where : String → Option Bool → Notification → Bool
mine_where user_id none n = n.user_id == user_id
mine_where user_id (some flag) n = n.user_id == user_id && same_flag flag n.is_read

abbrev pub newest_first : List (Order Notification)
newest_first = desc (λ n. n.created_at) ∷ []

abbrev pub with_read : Notification → Notification
with_read n = record n { is_read = true }

module _ (db : Prisma) where
  unfoldable pub create :
      ℕ → String → NotificationType → String → String → Option Metadata → M Notification
  create now user_id type title body metadata = do
    id ← fresh db
    let notification : Notification = record {
      id = id;
      user_id = user_id;
      type = type;
      title = title;
      body = body;
      is_read = false;
      metadata = metadata;
      created_at = now;
    }
    modify (λ w. record w { notifications = db.create notification w.notifications })
    emit (notified user_id notification)
    pure notification

  unfoldable pub find_mine : String → Option Bool → Paging → M (Paged Notification)
  find_mine user_id is_read query =
      gets (λ w. find_paged db (mine_where user_id is_read) newest_first query w.notifications)

  unfoldable pub mark_read : String → String → M String
  mark_read id user_id = do
    count ← (λ w.
        let (rows, n) =
          db.update_many (λ r. r.id == id && r.user_id == user_id) with_read w.notifications in
        pure n (record w { notifications = rows }))
    throw_if (nat_eq count 0) (not_found "Notification not found")
    pure "Notification marked as read"

  -- The number is the `count` of the answer.
  unfoldable pub mark_all_read : String → M ℕ
  mark_all_read user_id w =
      let (rows, n) = db.update_many (is_unread_of user_id) with_read w.notifications in
      pure n (record w { notifications = rows })

  unfoldable pub count_unread : String → M ℕ
  count_unread user_id = gets (λ w. db.count_rows (is_unread_of user_id) w.notifications)
