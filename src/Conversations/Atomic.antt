-- ===== src/Conversations/Atomic.antt =====
-- A message is accepted or refused as a whole.
use nestjs_learn.Prelude.{
  ℕ, ◌≡◌, refl, ap, sym, ◌∙◌, subst, true, not, ◌&&◌, some, List, [], ◌∷◌, String, arith,
  Option-cases, inl, inr, ◌⊎◌, Bool-cases, eq_iff, map, any,
}
use nestjs_learn.Prisma.{Prisma}
use nestjs_learn.Schema.{Message, MessageType, ConversationParticipant, Conversation}
use nestjs_learn.Text.{Unicode, truthy}
use nestjs_learn.World.{World, Result, ok, err, bad_request, not_found, Exception}
use nestjs_learn.World.Laws.{Result-cases, run_next-returns}
use nestjs_learn.Notifications
use nestjs_learn.Conversations.{
  SendMessageDto, SendMessageResult, ParticipantData, participant_of, recipients, check_blocked,
  non_empty, create_message, notify_all, deliver_message, get_conversation_participant_data,
  send_message_internal, is_mine, seat_of, text_of, map_message, other_user_of, last_read_of,
  message_type, preview_text,
}

module _ (db : Prisma) (u : Unicode) (now : ℕ) where
  notify_all_ok :
      (id preview : String) (m : Message) (rs : List String) (w : World)
      → (notify_all db u now id m preview rs w).0 ≡ ok tt
  unfolding notify_all Notifications.create
  notify_all_ok id preview m [] w = refl
  notify_all_ok id preview m (r ∷ rs) w = notify_all_ok id preview m rs _

  -- Once the checks have passed, the delivery returns, and names all participants.
  deliver_message_ok :
      (id user_id : String) (d : ParticipantData) (content image_url : String) (type : MessageType)
      (w : World)
      → (r : SendMessageResult) × ((deliver_message db u now id user_id d content image_url type
            w).0
          ≡ ok r)
        × (r.participant_ids ≡ map (λ (p : ConversationParticipant). p.user_id) d.participants)
  unfolding deliver_message create_message
  deliver_message_ok id user_id d content image_url type w =
      let m : Message = record {
        id = db.cuid w.issued;
        content = non_empty content;
        image_url = non_empty image_url;
        type = type;
        conversation_id = id;
        sender_id = user_id;
        created_at = now;
      } in
      let rs = recipients db u now user_id d.participants in
      let w1 = (create_message db u now id user_id content image_url type w).1 in
      (
        record {
          message =
              map_message m user_id (other_user_of user_id d.participants)
                (last_read_of user_id d.participants) d.conversation.listing_id;
          participant_ids = map (λ (p : ConversationParticipant). p.user_id) d.participants;
        },
        ap (λ (p : Result SendMessageResult × World). p.0)
            (run_next-returns (notify_all db u now id m (preview_text content type) rs w1) tt _
              (notify_all_ok id (preview_text content type) m rs w1)),
        refl,
      )

  check_blocked-world :
      (user_id : String) (rs : List String) (w : World)
      → (check_blocked db u now user_id rs w).1 ≡ w
  unfolding check_blocked
  check_blocked-world user_id [] w = refl
  check_blocked-world user_id (r ∷ rs) w = ground arith

  is_mine_seated :
      (id user_id : String) (w : World) (c : Conversation)
      → db.find_first (is_mine db id user_id w) [] w.conversations ≡ some c
      → any (seat_of id user_id) w.participants ≡ true
  is_mine_seated id user_id w c found =
      let (m, passed) = db.find_first_sound (is_mine db id user_id w) [] w.conversations c found in
      let same : c.id ≡ id = (eq_iff c.id id).0 (ground arith) in
      subst (λ (s : String). any (seat_of s user_id) w.participants ≡ true) same (ground arith)

  -- A message that is refused leaves everything as it was, and one that is accepted names all
  -- participants of the conversation, of whom the sender is one.
  pub send_message_internal-atomic :
      (id user_id : String) (payload : SendMessageDto) (w w' : World)
      (res : Result SendMessageResult)
      → send_message_internal db u now id user_id payload w ≡ (res, w')
      → ((e : Exception) × (res ≡ err e) × (w' ≡ w))
        ⊎ ((r : SendMessageResult) × (res ≡ ok r)
            × (r.participant_ids
                ≡ map
                    (λ (p : ConversationParticipant). p.user_id)
                    (db.find_many (participant_of id) [] w.participants))
            × (any (seat_of id user_id) w.participants ≡ true))
  unfolding send_message_internal get_conversation_participant_data
  send_message_internal-atomic id user_id payload w w' res e =
      let rows = db.find_many (participant_of id) [] w.participants in
      elim (Option-cases (db.find_first (is_mine db id user_id w) [] w.conversations)) [
        | inl missing ↦ inl (not_found "Conversation not found", ground arith, ground arith)
        | inr (c, found) ↦
            let d : ParticipantData = record { conversation = c; participants = rows } in
            let content = text_of payload.content in
            let image_url = text_of payload.image_url in
            let type = message_type (u.to_lower (text_of payload.type)) content image_url in
            let e0 = rw found at e in
            elim (Bool-cases (not (truthy content) && not (truthy image_url))) [
              | inl empty ↦
                  inl (bad_request "content or imageUrl is required", ground arith, ground arith)
              | inr filled ↦
                  elim (Result-cases
                    (check_blocked db u now user_id (recipients db u now user_id rows) w)) [
                      | inr (x, w1, eb) ↦
                          let same =
                            check_blocked-world user_id (recipients db u now user_id rows) w in
                          let last = rw (filled, eb) at e0 in
                          inl (
                            x,
                            sym (ap (λ (p : Result SendMessageResult × World). p.0) last),
                            sym (ap (λ (p : Result SendMessageResult × World). p.1) last)
                                ∙ sym (ap (λ (p : Result (Unit {0}) × World). p.1) eb)
                                ∙ same,
                          )
                      | inl (t, w1, eb) ↦
                          let (r, sent, names) =
                            deliver_message_ok id user_id d content image_url type w1 in
                          let last = rw (filled, eb) at e0 in
                          inr (
                            r,
                            sym (ap (λ (p : Result SendMessageResult × World). p.0) last) ∙ sent,
                            names,
                            is_mine_seated id user_id w c found,
                          )
                    ]
            ]
      ]
