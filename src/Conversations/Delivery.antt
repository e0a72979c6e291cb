-- ===== src/Conversations/Delivery.antt =====
-- What sending a message writes.
use mathlib.Core.List.{append-nil, append_assoc}
use nestjs_learn.Prelude.{
  ◌++◌, count-map, map, keep, count, eq_iff, if◌then◌else◌, ℕ, ◌≡◌, refl, ap, sym, ◌∙◌, subst, Bool,
  true, false, not, ◌&&◌, none, some, List, [], ◌∷◌, String, arith, Option-cases, inl, inr, All,
  All-of_mem, any, ◌==◌,
}
use nestjs_learn.Prisma.{Prisma}
use nestjs_learn.Schema.{
  Message, MessageType, Notification, NotificationType, UserBlock, ConversationParticipant,
}
use nestjs_learn.Text.{Unicode, truthy}
use nestjs_learn.World.{World, Result, ok, throw_if, bad_request, Exception}
use nestjs_learn.World.Laws.{step_ok}
use nestjs_learn.Notifications
use nestjs_learn.Conversations.{
  SendMessageDto, SendMessageResult, ParticipantData, participant_of, recipients, check_blocked,
  non_empty, create_message, notify_all, deliver_message, get_conversation_participant_data,
  send_message_internal, is_mine, seat_of, text_of, message_type, preview_text,
}

-- The notification that tells of a message.
pub record IsNotice (id : String) (m : Message) (n : Notification) : Type 0 where
  pub kind : n.type ≡ NotificationType.new_message
  pub unread : n.is_read ≡ false
  pub names :
      n.metadata
      ≡ some (record {
        listing_id = none;
        conversation_id = some id;
        message_id = some m.id;
        sender_id = some m.sender_id;
      })

-- How often a text stays when another one is dropped from a list.
count-others :
    (x other : String) (xs : List String)
    → count (λ s. s == x) (keep (λ s. not (s == other)) xs)
      ≡ (if x == other then 0 else count (λ s. s == x) xs)
count-others x other [] = ground arith
count-others x other (s ∷ xs) =
    ground (arith, count-others x other xs, eq_iff s x, eq_iff s other, eq_iff x other)

module _ (db : Prisma) (u : Unicode) (now : ℕ) where
  -- The notifications that were written behind those of the table, for the given users.
  abbrev pub Tells : String → Message → List String → World → World → Type 0
  Tells id m rs w w' =
      (ns : List Notification) × (w'.notifications ≡ w.notifications ++ ns)
      × (map (λ (n : Notification). n.user_id) ns ≡ rs)
      × All (IsNotice id m) ns

  notify_all-Tells :
      (id preview : String) (m : Message) (rs : List String) (w : World)
      → Tells id m rs w (notify_all db u now id m preview rs w).1
        × ((notify_all db u now id m preview rs w).1.messages ≡ w.messages)
  unfolding notify_all Notifications.create
  notify_all-Tells id preview m [] w = (([], sym (append-nil w.notifications), refl, tt), refl)
  notify_all-Tells id preview m (r ∷ rs) w =
      let p =
        Notifications.create db now r NotificationType.new_message "Tin nhan moi" preview
          (some (record {
            listing_id = none;
            conversation_id = some id;
            message_id = some m.id;
            sender_id = some m.sender_id;
          }))
          w in
      let n : Notification = record {
        id = db.cuid w.issued;
        user_id = r;
        type = NotificationType.new_message;
        title = "Tin nhan moi";
        body = preview;
        is_read = false;
        metadata = some (record {
          listing_id = none;
          conversation_id = some id;
          message_id = some m.id;
          sender_id = some m.sender_id;
        });
        created_at = now;
      } in
      let ((ns, told, to, notices), same) = notify_all-Tells id preview m rs p.1 in
      (
        (
          n ∷ ns,
          told
              ∙ ap (λ (xs : List Notification). xs ++ ns) (db.create_lem n w.notifications)
              ∙ append_assoc w.notifications (n ∷ []) ns,
          ap (λ (xs : List String). r ∷ xs) to,
          (record { kind = refl; unread = refl; names = refl }, notices),
        ),
        same,
      )

  -- What the recipients are told, and what stays, once the delivery has returned.
  delivered :
      (id user_id content image_url : String) (type : MessageType) (d : ParticipantData)
      (w w' : World) (r : SendMessageResult)
      → deliver_message db u now id user_id d content image_url type w ≡ (ok r, w')
      → (m : Message) × (w'.messages ≡ w.messages ++ m ∷ [])
        × (m.conversation_id ≡ id)
        × (m.sender_id ≡ user_id)
        × Tells id m (recipients db u now user_id d.participants) w w'
  unfolding deliver_message create_message
  delivered id user_id content image_url type d w w' r e =
      let others = recipients db u now user_id d.participants in
      let m : Message = record {
        id = db.cuid w.issued;
        content = non_empty content;
        image_url = non_empty image_url;
        type = type;
        conversation_id = id;
        sender_id = user_id;
        created_at = now;
      } in
      let w1 = (create_message db u now id user_id content image_url type w).1 in
      let p = notify_all db u now id m (preview_text content type) others w1 in
      let (t, w2, en, e2) = step_ok p _ w' r e in
      let (told, kept) = notify_all-Tells id (preview_text content type) m others w1 in
      let last : p.1 ≡ w' =
        ap (λ (q : Result (Unit {0}) × World). q.1) en
        ∙ ap (λ (q : Result SendMessageResult × World). q.1) e2 in
      (
        m,
        sym (ap (λ (v : World). v.messages) last) ∙ kept ∙ db.create_lem m w.messages,
        refl,
        refl,
        subst (Tells id m others w) last told,
      )

  throw_passed :
      (b : Bool) (x : Exception) (w w' : World) (t : Unit {0})
      → throw_if b x w ≡ (ok t, w')
      → w' ≡ w
  throw_passed true x w w' t e = absurd (ground arith)
  throw_passed false x w w' t e = ground arith

  not_blocked :
      (user_id : String) (rs : List String) (w w' : World) (t : Unit {0})
      → check_blocked db u now user_id rs w ≡ (ok t, w')
      → (w' ≡ w)
        × All (λ b. (any (λ id. b.blocker_id == id) rs && b.blocked_id == user_id) ≡ false) w.blocks
  unfolding check_blocked
  not_blocked user_id [] w w' t e = (ground arith, All-of_mem _ w.blocks (λ b m. refl))
  not_blocked user_id (r ∷ rs) w w' t e =
      elim (Option-cases (
        db.find_first
          (λ (b : UserBlock). any (λ id. b.blocker_id == id) (r ∷ rs) && b.blocked_id == user_id) []
          w.blocks)) [
            | inl free ↦ (ground arith, db.find_first_complete _ [] w.blocks free)
            | inr (b, blocked) ↦ absurd (ground arith)
          ]

  -- Each user but the sender is told as often as the user has a seat in the conversation.
  told_by_seat :
      (id user_id x : String) (parts : List ConversationParticipant) (ns : List Notification)
      → map (λ (n : Notification). n.user_id) ns
        ≡ recipients db u now user_id (db.find_many (participant_of id) [] parts)
      → count (λ n. n.user_id == x) ns ≡ (if x == user_id then 0 else count (seat_of id x) parts)
  told_by_seat id user_id x parts ns e =
      let seats = db.find_many (participant_of id) [] parts in
      let users = map (λ (p : ConversationParticipant). p.user_id) seats in
      let found : count (λ s. s == x) users ≡ count (seat_of id x) parts =
        count-map (λ s. s == x) (λ (p : ConversationParticipant). p.user_id) seats
        ∙ (db.find_many_lem (participant_of id) [] parts).counts (λ p. p.user_id == x) in
      sym (count-map (λ s. s == x) (λ (n : Notification). n.user_id) ns)
      ∙ ap (count (λ s. s == x)) e
      ∙ count-others x user_id users
      ∙ ap (λ k. if x == user_id then 0 else k) found

  -- A message that was sent is one new row, of the sender and the conversation; the new
  -- notifications are unread and tell of that message and its conversation, each user but the
  -- sender has as many of them as seats in the conversation, and the sender has none; and no
  -- participant but the sender had blocked the sender.
  pub send_message_delivers :
      (id user_id : String) (payload : SendMessageDto) (w w' : World) (r : SendMessageResult)
      → send_message_internal db u now id user_id payload w ≡ (ok r, w')
      → ((m : Message) × (w'.messages ≡ w.messages ++ m ∷ [])
          × (m.conversation_id ≡ id)
          × (m.sender_id ≡ user_id)
          × (ns : List Notification) × (w'.notifications ≡ w.notifications ++ ns)
          × All (IsNotice id m) ns
          × ((x : String)
              → count (λ n. n.user_id == x) ns
                ≡ (if x == user_id then 0 else count (seat_of id x) w.participants)))
        × All
            (λ b.
              (any
                  (λ x. b.blocker_id == x)
                  (recipients db u now user_id (db.find_many (participant_of id) [] w.participants))
                && b.blocked_id == user_id)
              ≡ false)
            w.blocks
  unfolding send_message_internal get_conversation_participant_data
  send_message_delivers id user_id payload w w' r e =
      let content = text_of payload.content in
      let image_url = text_of payload.image_url in
      let type = message_type (u.to_lower (text_of payload.type)) content image_url in
      let others =
        recipients db u now user_id (db.find_many (participant_of id) [] w.participants) in
      elim (Option-cases (db.find_first (is_mine db id user_id w) [] w.conversations)) [
        | inl missing ↦ absurd (ground arith)
        | inr (c, found) ↦
            let d : ParticipantData = record {
              conversation = c;
              participants = db.find_many (participant_of id) [] w.participants;
            } in
            let e0 = rw found at e in
            let (t, w1, et, e1) =
              step_ok
                (throw_if (not (truthy content) && not (truthy image_url))
                  (bad_request "content or imageUrl is required") w)
                _ w' r e0 in
            let (t', w2, eb, e2) = step_ok (check_blocked db u now user_id others w1) _ w' r e1 in
            let (same, free) = not_blocked user_id others w1 w2 t' eb in
            let start = throw_passed _ _ w w1 t et in
            let (m, made, of_id, by, (ns, told, to, notices)) =
              delivered id user_id content image_url type d w2 w' r e2 in
            let all : w2 ≡ w = same ∙ start in
            (
              (
                m,
                made ∙ ap (λ (v : World). v.messages ++ m ∷ []) all,
                of_id,
                by,
                ns,
                told ∙ ap (λ (v : World). v.notifications ++ ns) all,
                notices,
                λ x. told_by_seat id user_id x w.participants ns to,
              ),
              subst
                  (λ (v : World).
                    All
                      (λ b.
                        (any (λ x. b.blocker_id == x) others && b.blocked_id == user_id) ≡ false)
                      v.blocks)
                  start free,
            )
      ]
