-- ===== src/Conversations/Access.antt =====
-- Who can read and write a conversation.
use nestjs_learn.Prelude.{
  ℕ, ◌≡◌, refl, true, false, [], String, arith, Option-cases, inl, inr, any, eq_iff,
}
use nestjs_learn.Prisma.{Prisma}
use nestjs_learn.Text.{Unicode}
use nestjs_learn.World.{World, err, not_found}
use nestjs_learn.Pagination.{Paging}
use nestjs_learn.Conversations.{
  SendMessageDto, seat_of, is_mine, get_conversation_participant_data, find_messages,
  send_message_internal, mark_read,
}

module _ (db : Prisma) (u : Unicode) (now : ℕ) (id user_id : String) (w : World) where
  absent :
      any (seat_of id user_id) w.participants ≡ false
      → get_conversation_participant_data db id user_id w
        ≡ (err (not_found "Conversation not found"), w)
  unfolding get_conversation_participant_data
  absent h = elim (Option-cases (db.find_first (is_mine db id user_id w) [] w.conversations)) [
    | inl missing ↦ rw missing refl
    | inr (c, found) ↦
        let (m, passed) =
          db.find_first_sound (is_mine db id user_id w) [] w.conversations c found in
        let same : c.id ≡ id = (eq_iff c.id id).0 (ground arith) in
        let seated : any (seat_of c.id user_id) w.participants ≡ true = ground arith in
        let here = rw same at seated in absurd (ground arith)
  ]

  -- A user who has no seat in a conversation is told that there is none, and changes nothing, by
  -- reading its messages, by sending one and by marking it as read.
  pub stranger_finds_nothing :
      (query : Paging) (payload : SendMessageDto)
      → any (seat_of id user_id) w.participants ≡ false
      → (find_messages db id user_id query w ≡ (err (not_found "Conversation not found"), w))
        × (send_message_internal db u now id user_id payload w
            ≡ (err (not_found "Conversation not found"), w))
        × (mark_read db u now id user_id w ≡ (err (not_found "Conversation not found"), w))
  unfolding find_messages send_message_internal mark_read
  stranger_finds_nothing query payload h =
      (rw (absent h) refl, rw (absent h) refl, rw (absent h) refl)
