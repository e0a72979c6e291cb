-- ===== src/Gateways/Chat.antt =====
-- src/modules/conversations/chat.gateway.ts: the handler of `chat:send`. The fields of the payload
-- are texts or undefined.
use nestjs_learn.Prelude.{ℕ, Option, none, some, List, [], ◌∷◌, map, String}
use nestjs_learn.Prisma.{Prisma}
use nestjs_learn.Text.{Unicode}
use nestjs_learn.World.{
  World, Result, ok, err, Exception, bad_request, unauthorized, forbidden, not_found,
}
use nestjs_learn.Moderation.Workflow.{exception_message}
use nestjs_learn.Listings.Query.{distinct, present_trimmed}
use nestjs_learn.Conversations.{
  SendMessageDto, SendMessageResult, FrontendMessage, send_message_internal,
}
use nestjs_learn.Gateways.{user_room}

pub record ChatSendPayload : Type 0 where
  pub conversation_id : Option String
  pub content : Option String
  pub image_url : Option String
  pub type : Option String
  pub client_temp_id : Option String

pub record ChatErrorPayload : Type 0 where
  pub code : String
  pub message : String
  pub conversation_id : Option String
  pub client_temp_id : Option String

pub record Envelope : Type 0 where
  pub conversation_id : String
  pub message : FrontendMessage
  pub client_temp_id : String

-- `chat:error` to the socket of the sender, and `chat:message` to a room.
pub data Emission : Type 0 where
  chat_error : ChatErrorPayload → Emission
  chat_message : String → Envelope → Emission

unfoldable pub error_code : Exception → String
error_code (unauthorized s) = "UNAUTHORIZED"
error_code (not_found s) = "NOT_FOUND"
error_code (bad_request s) = "BAD_REQUEST"
error_code (forbidden s) = "FORBIDDEN"
error_code _ = "SEND_FAILED"

abbrev pub refused : String → String → Option String → Option String → List Emission
refused code message conversation_id client_temp_id =
    chat_error (record {
      code = code;
      message = message;
      conversation_id = conversation_id;
      client_temp_id = client_temp_id;
    })
    ∷ []

-- The loop over the distinct participants.
unfoldable pub emit_all : Envelope → List String → List Emission
unfolding user_room
emit_all envelope ids = map (λ id. chat_message (user_room id) envelope) (distinct ids)

-- What the handler emits after the service has answered.
unfoldable pub answer : String → String → Result SendMessageResult → List Emission
unfolding emit_all error_code
answer conversation_id client_temp_id (ok result) =
    emit_all
      (record {
        conversation_id = conversation_id;
        message = result.message;
        client_temp_id = client_temp_id;
      })
      result.participant_ids
answer conversation_id client_temp_id (err e) =
    refused (error_code e) (exception_message e) (some conversation_id) (some client_temp_id)

module _ (db : Prisma) (u : Unicode) (now : ℕ) where
  -- The call of the service, with both identifiers at hand.
  unfoldable pub send_and_answer :
      String → String → String → ChatSendPayload → World → List Emission × World
  unfolding send_message_internal answer
  send_and_answer user_id conversation_id client_temp_id payload w =
      let dto : SendMessageDto = record {
        content = payload.content;
        image_url = payload.image_url;
        type = payload.type;
      } in
      let (result, after) = send_message_internal db u now conversation_id user_id dto w in
      (answer conversation_id client_temp_id result, after)

  unfoldable pub handle_chat_send : Option String → ChatSendPayload → World → List Emission × World
  unfolding send_and_answer
  handle_chat_send none payload w = (refused "UNAUTHORIZED" "Unauthorized" none none, w)
  handle_chat_send (some user_id) payload w = elim (present_trimmed payload.conversation_id) [
    | none ↦
        (refused "VALIDATION_ERROR" "conversationId is required" none payload.client_temp_id, w)
    | some conversation_id ↦ elim (present_trimmed payload.client_temp_id) [
      | none ↦
          (refused "VALIDATION_ERROR" "clientTempId is required" (some conversation_id) none, w)
      | some client_temp_id ↦ send_and_answer user_id conversation_id client_temp_id payload w
    ]
  ]
