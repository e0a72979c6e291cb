-- ===== src/Tests/Chats.antt =====
-- Conversations at a concrete world.
use nestjs_learn.Prelude.{
  ◌++◌, List, count, if◌then◌else◌, ◌≡◌, refl, true, false, ◌&&◌, none, some, [], ◌∷◌, String, All,
  length, any, ◌==◌,
}
use nestjs_learn.Prisma.Memory.{memory}
use nestjs_learn.Schema.{ConversationParticipant, Message, Notification}
use nestjs_learn.Text.{Unicode, trim}
use nestjs_learn.World.{World, Result, ok, err, not_found}
use nestjs_learn.Pagination.{Paging}
use nestjs_learn.Conversations.{
  SendMessageDto, SendMessageResult, participant_of, seat_of, recipients, find_messages,
  send_message_internal, mark_read,
}
use nestjs_learn.Users.Accounts.{block_user}
use nestjs_learn.Users.Accounts.Blocks.{block_stops_messages}
use nestjs_learn.Conversations.Access.{stranger_finds_nothing}
use nestjs_learn.Conversations.Delivery.{IsNotice, send_message_delivers}
use nestjs_learn.Conversations.Opening.{create}
use nestjs_learn.Conversations.Opening.Reuse.{create_once}
use nestjs_learn.Tests.Worlds.{empty_world, books, novel, person}

abbrev pub plain_text : Unicode
plain_text = record { to_lower = λ s. s; to_upper = λ s. s; nfd = λ s. s }

abbrev seat : String → String → ConversationParticipant
seat id user = record { id = id; last_read_at = none; conversation_id = "k1"; user_id = user }

abbrev pub room : World
room = record empty_world {
  users = person "ann" "ann@x" true ∷ person "bob" "bob@x" true ∷ person "eve" "eve@x" true ∷ [];
  categories = books ∷ [];
  listings = novel ∷ [];
  conversations =
      record { id = "k1"; last_message_at = none; listing_id = some "l1"; created_at = 5 } ∷ [];
  participants = seat "p1" "ann" ∷ seat "p2" "bob" ∷ [];
}

abbrev hello : SendMessageDto
hello = record { content = some " hello "; image_url = none; type = none }

abbrev first_page : Paging
first_page = record { page = 1; limit = 30 }

stranger_finds_nothing_example :
    (find_messages memory "k1" "eve" first_page room
      ≡ (err (not_found "Conversation not found"), room))
    × (send_message_internal memory plain_text 20 "k1" "eve" hello room
        ≡ (err (not_found "Conversation not found"), room))
    × (mark_read memory plain_text 20 "k1" "eve" room
        ≡ (err (not_found "Conversation not found"), room))
stranger_finds_nothing_example =
    stranger_finds_nothing memory plain_text 20 "k1" "eve" room first_page hello refl

abbrev sent : Result SendMessageResult × World
sent = send_message_internal memory plain_text 20 "k1" "ann" hello room

abbrev reply : SendMessageResult
reply = record {
  message = record {
    id = memory.cuid 0;
    sender_id = "ann";
    receiver_id = "bob";
    content = "hello";
    type = "text";
    image_url = none;
    created_at = 20;
    read = true;
    product_id = some "l1";
  };
  participant_ids = "ann" ∷ "bob" ∷ [];
}

ann_sends : sent ≡ (ok reply, sent.1)
unfolding send_message_internal memory trim
ann_sends = refl

send_message_delivers_example :
    ((m : Message) × (sent.1.messages ≡ room.messages ++ m ∷ [])
      × (m.conversation_id ≡ "k1")
      × (m.sender_id ≡ "ann")
      × (ns : List Notification) × (sent.1.notifications ≡ room.notifications ++ ns)
      × All (IsNotice "k1" m) ns
      × ((x : String)
          → count (λ n. n.user_id == x) ns
            ≡ (if x == "ann" then 0 else count (seat_of "k1" x) room.participants)))
    × All
        (λ b.
          (any
              (λ x. b.blocker_id == x)
              (recipients memory plain_text 20 "ann"
                (memory.find_many (participant_of "k1") [] room.participants))
            && b.blocked_id == "ann")
          ≡ false)
        room.blocks
send_message_delivers_example =
    send_message_delivers memory plain_text 20 "k1" "ann" hello room sent.1 reply ann_sends

create_once_example :
    (create memory 30 "eve" ("bob", some "l1") (create memory 20 "eve" ("bob", some "l1") room).1).1
    ≡ (create memory 20 "eve" ("bob", some "l1") room).1
unfolding memory
create_once_example = create_once memory 20 30 "eve" "bob" (some "l1") room (refl, (refl, tt))

-- The first call does open a conversation, with two seats.
opens_one :
    (length (create memory 20 "eve" ("bob", some "l1") room).1.conversations ≡ 2)
    × (length (create memory 20 "eve" ("bob", some "l1") room).1.participants ≡ 4)
unfolding create memory trim
opens_one = (refl, refl)

abbrev after_block : World
after_block = (block_user memory 20 "bob" "ann" room).1

bob_blocks_ann : block_user memory 20 "bob" "ann" room ≡ (ok true, after_block)
unfolding block_user memory
bob_blocks_ann = refl

block_stops_messages_example :
    ¬ (send_message_internal memory plain_text 30 "k1" "ann" hello after_block ≡ (ok reply, room))
unfolding memory block_user
block_stops_messages_example =
    block_stops_messages memory 20 "bob" "ann" room after_block plain_text 30 "k1" hello reply room
      bob_blocks_ann refl
