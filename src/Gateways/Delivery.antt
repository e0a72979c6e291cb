-- ===== src/Gateways/Delivery.antt =====
-- Whom the handler of `chat:send` reaches.
use text.Mathlib.TextLemmas.{append_cancel_left}
use nestjs_learn.Prelude.{
  ℕ, ◌≡◌, refl, ap, sym, ◌∙◌, subst, ◌⊎◌, inl, inr, Bool, true, false, not, Option, none, some,
  List, [], ◌∷◌, map, String, arith, Bool-cases, Option-cases, any, count, keep, if◌then◌else◌,
  ◌==◌, eq_iff, eq_refl,
}
use nestjs_learn.Prisma.{Prisma}
use nestjs_learn.Schema.{ConversationParticipant}
use nestjs_learn.Text.{Unicode}
use nestjs_learn.World.{World, ok, err, Exception}
use nestjs_learn.Listings.Query.{distinct, present_trimmed}
use nestjs_learn.Conversations.{
  SendMessageDto, SendMessageResult, participant_of, seat_of, send_message_internal,
}
use nestjs_learn.Conversations.Atomic.{send_message_internal-atomic}
use nestjs_learn.Gateways.{user_room}
use nestjs_learn.Gateways.Chat.{
  ChatSendPayload, ChatErrorPayload, Envelope, Emission, chat_error, chat_message, emit_all, answer,
  send_and_answer, handle_chat_send,
}

abbrev pub is_to : String → Emission → Bool
is_to user_id (chat_error payload) = false
is_to user_id (chat_message room envelope) = room == user_room user_id

-- One error for the sender, and nothing else.
abbrev pub IsRefusal : List Emission → Type 0
IsRefusal out = (payload : ChatErrorPayload) × (out ≡ chat_error payload ∷ [])

-- Each of the users gets one message, and nobody else gets any.
abbrev pub Reaches : List String → List Emission → Type 0
Reaches ids out = (x : String) → count (is_to x) out ≡ (if any (λ id. id == x) ids then 1 else 0)

count-keep_other :
    (x s : String) (xs : List String)
    → count (λ t. t == x) (keep (λ t. not (t == s)) xs)
      ≡ (if s == x then 0 else count (λ t. t == x) xs)
count-keep_other x s [] = ground arith
count-keep_other x s (y ∷ ys) = ground (
  arith,
  count-keep_other x s ys,
  eq_iff y s,
  eq_iff y x,
  eq_iff s x,
  eq_refl x,
  eq_refl s,
  eq_refl y,
)

-- A set holds each text once.
count-distinct :
    (x : String) (xs : List String)
    → count (λ t. t == x) (distinct xs) ≡ (if any (λ t. t == x) xs then 1 else 0)
count-distinct x [] = refl
count-distinct x (s ∷ rest) =
    ground (arith, count-keep_other x s (distinct rest), count-distinct x rest)

user_room-eq : (a b : String) → (user_room a == user_room b) ≡ (a == b)
unfolding user_room
user_room-eq a b = elim (Bool-cases (a == b)) [
  | inl same ↦ rw (sym ((eq_iff a b).0 same)) (eq_refl (user_room a) ∙ sym (eq_refl a))
  | inr other ↦ elim (Bool-cases (user_room a == user_room b)) [
    | inl equal ↦
        let same : a ≡ b =
          append_cancel_left "user:" a b ((eq_iff (user_room a) (user_room b)).0 equal) in
        absurd (ground (arith, eq_iff a b))
    | inr apart ↦ apart ∙ sym other
  ]
]

count-emit_all :
    (x : String) (envelope : Envelope) (ids : List String)
    → count (is_to x) (map (λ id. chat_message (user_room id) envelope) ids)
      ≡ count (λ t. t == x) ids
count-emit_all x envelope [] = refl
count-emit_all x envelope (id ∷ ids) =
    ground (arith, count-emit_all x envelope ids, user_room-eq id x)

answer-refuses :
    (id client_temp_id : String) (e : Exception) → IsRefusal (answer id client_temp_id (err e))
unfolding answer
answer-refuses id client_temp_id e = (_, refl)

answer-Reaches :
    (id client_temp_id : String) (r : SendMessageResult)
    → Reaches r.participant_ids (answer id client_temp_id (ok r))
unfolding answer emit_all
answer-Reaches id client_temp_id r x =
    count-emit_all x _ (distinct r.participant_ids) ∙ count-distinct x r.participant_ids

abbrev first : List Emission × World → List Emission
first p = p.0

abbrev second : List Emission × World → World
second p = p.1

module _ (db : Prisma) (u : Unicode) (now : ℕ) where
  -- The users who take part in a conversation.
  abbrev pub seats : String → World → List String
  seats id w =
      map (λ (p : ConversationParticipant). p.user_id)
        (db.find_many (participant_of id) [] w.participants)

  send_and_answer-delivers :
      (user_id id client_temp_id : String) (payload : ChatSendPayload) (w w' : World)
      (out : List Emission)
      → send_and_answer db u now user_id id client_temp_id payload w ≡ (out, w')
      → (IsRefusal out × (w' ≡ w))
        ⊎ (Reaches
              (map
                (λ (p : ConversationParticipant). p.user_id)
                (db.find_many (participant_of id) [] w.participants))
              out
            × (any (seat_of id user_id) w.participants ≡ true))
  unfolding send_and_answer answer emit_all
  send_and_answer-delivers user_id id client_temp_id payload w w' out e =
      let dto : SendMessageDto = record {
        content = payload.content;
        image_url = payload.image_url;
        type = payload.type;
      } in
      let (res, after) = send_message_internal db u now id user_id dto w in
      elim (send_message_internal-atomic db u now id user_id dto w after res refl) [
        | inl (x, refused, same) ↦ inl (
          subst IsRefusal (sym (ap (answer id client_temp_id) refused) ∙ ap first e)
              (answer-refuses id client_temp_id x),
          sym (ap second e) ∙ same,
        )
        | inr (r, sent, names, seated) ↦ inr (
          subst (Reaches (seats id w)) (sym (ap (answer id client_temp_id) sent) ∙ ap first e) (
              subst (λ (ids : List String). Reaches ids (answer id client_temp_id (ok r))) names
                (answer-Reaches id client_temp_id r)),
          seated,
        )
      ]

  -- Whatever a socket sends, either its sender gets one error, nobody gets a message and the
  -- database is left as it was; or the socket has a user, who has a seat in the conversation that the
  -- payload names, and each participant of that conversation gets the message once and nobody else
  -- gets one.
  pub handle_chat_send-delivers :
      (auth_user : Option String) (payload : ChatSendPayload) (w w' : World) (out : List Emission)
      → handle_chat_send db u now auth_user payload w ≡ (out, w')
      → (IsRefusal out × (w' ≡ w))
        ⊎ ((user_id id : String) × (auth_user ≡ some user_id)
            × (present_trimmed payload.conversation_id ≡ some id)
            × (any (seat_of id user_id) w.participants ≡ true)
            × Reaches
                (map
                  (λ (p : ConversationParticipant). p.user_id)
                  (db.find_many (participant_of id) [] w.participants))
                out)
  unfolding handle_chat_send
  handle_chat_send-delivers none payload w w' out e =
      inl (subst IsRefusal (ap first e) (_, refl), sym (ap second e))
  handle_chat_send-delivers (some user_id) payload w w' out e =
      elim (Option-cases (present_trimmed payload.conversation_id)) [
        | inl no_id ↦
            let e1 = rw (no_id, handle_chat_send) at e in
            inl (subst IsRefusal (ap first e1) (_, refl), sym (ap second e1))
        | inr (id, has_id) ↦ elim (Option-cases (present_trimmed payload.client_temp_id)) [
          | inl no_temp ↦
              let e1 = rw (has_id, no_temp, handle_chat_send) at e in
              inl (subst IsRefusal (ap first e1) (_, refl), sym (ap second e1))
          | inr (temp, has_temp) ↦
              let e1 = rw (has_id, has_temp, handle_chat_send) at e in
              elim (send_and_answer-delivers user_id id temp payload w w' out e1) [
                | inl refused ↦ inl refused
                | inr (reached, seated) ↦ inr (user_id, id, refl, has_id, seated, reached)
              ]
        ]
      ]
