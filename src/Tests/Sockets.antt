-- ===== src/Tests/Sockets.antt =====
-- The gateways at a concrete world.
use nestjs_learn.Prelude.{
  ◌≡◌, ◌⊎◌, refl, true, false, Option, none, some, List, [], ◌∷◌, String, any,
}
use nestjs_learn.Prisma.Memory.{memory}
use nestjs_learn.Text.{trim}
use nestjs_learn.World.{World, err, plain}
use nestjs_learn.Guards.{extract_socket_auth_user}
use nestjs_learn.Listings.Query.{present_trimmed}
use nestjs_learn.Conversations.{seat_of, send_message_internal}
use nestjs_learn.Gateways.{Socket, user_room, after_init, handle_connection}
use nestjs_learn.Gateways.Chat.{
  ChatSendPayload, Emission, chat_error, error_code, answer, send_and_answer, handle_chat_send,
}
use nestjs_learn.Gateways.Delivery.{IsRefusal, Reaches, seats, handle_chat_send-delivers}
use nestjs_learn.Tests.Chats.{plain_text, room}

abbrev hello : ChatSendPayload
hello = record {
  conversation_id = some " k1 ";
  content = some "hello";
  image_url = none;
  type = none;
  client_temp_id = some "t1";
}

abbrev out : List Emission × World
out = handle_chat_send memory plain_text 20 (some "ann") hello room

handle_chat_send-delivers_example :
    (IsRefusal out.0 × (out.1 ≡ room))
    ⊎ ((user_id id : String) × (Option.some "ann" ≡ some user_id)
        × (present_trimmed hello.conversation_id ≡ some id)
        × (any (seat_of id user_id) room.participants ≡ true)
        × Reaches (seats memory plain_text 20 id room) out.0)
handle_chat_send-delivers_example =
    handle_chat_send-delivers memory plain_text 20 (some "ann") hello room out.1 out.0 refl

-- A stranger gets the code of the exception.
stranger_refused :
    (handle_chat_send memory plain_text 20 (some "eve") hello room).0
    ≡ chat_error (record {
      code = "NOT_FOUND";
      message = "Conversation not found";
      conversation_id = some "k1";
      client_temp_id = some "t1";
    })
      ∷ []
unfolding handle_chat_send send_and_answer answer error_code send_message_internal memory trim
stranger_refused = refl

abbrev fresh_socket : Socket
fresh_socket = record { auth_user = none; rooms = []; connected = true }

joins :
    handle_connection (record fresh_socket { auth_user = some "ann" })
    ≡ record fresh_socket { auth_user = some "ann"; rooms = "user:ann" ∷ [] }
unfolding handle_connection user_room
joins = refl

drops : (handle_connection fresh_socket).connected ≡ false
unfolding handle_connection
drops = refl

refuses_token :
    after_init (λ s. some s) (λ t. none) (some "x") fresh_socket ≡ err (plain "Unauthorized")
unfolding after_init extract_socket_auth_user trim
refuses_token = refl
