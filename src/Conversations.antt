-- ===== src/Conversations.antt =====
-- src/modules/conversations/conversations.service.ts. The methods take the reading of the clock.
mod Data
pub mod Access
pub mod Delivery
pub mod Atomic
pub mod Opening
use nestjs_learn.Prelude.{
  ℕ, ◌+◌, ◌-◌, ◌*◌, Bool, true, false, not, ◌&&◌, ◌||◌, Option, none, some, List, [], ◌∷◌, ◌++◌,
  map, reverse, String, any, keep, leb, ltb, nat_eq, length, ◌==◌, if◌then◌else◌,
}
use nestjs_learn.Prisma.{Prisma, Order, asc, desc}
use nestjs_learn.Schema.{
  User, Listing, ListingImage, Conversation, ConversationParticipant, Message, MessageType,
  UserBlock, NotificationType, Metadata, Category, Favorite,
}
use nestjs_learn.Text.{Unicode, trim, truthy}
use nestjs_learn.World.{
  World, M, Exception, bad_request, forbidden, not_found, database, ◌>>=◌, ◌>>◌, pure, throw, gets,
  modify, require, throw_if, skip, fresh, when,
}
use nestjs_learn.Pagination.{Paging, Paged, find_paged}
use nestjs_learn.Notifications
use nestjs_learn.Users.Mapper.{FrontendUser, map_user_to_frontend, or_else}
use nestjs_learn.Listings.Types.{ListingWithRelations, FrontendListing}
use nestjs_learn.Listings.Mapper.{map_listing_to_frontend, map_option, first_of}
unfoldable pub use Data.*

module _ (db : Prisma) where
  abbrev pub is_mine : String → String → World → Conversation → Bool
  is_mine id user_id w c = c.id == id && any (seat_of c.id user_id) w.participants

  unfoldable pub get_conversation_participant_data : String → String → M ParticipantData
  get_conversation_participant_data id user_id = do
    found ← gets (λ w. db.find_first (is_mine id user_id w) [] w.conversations)
    conversation ← require found (not_found "Conversation not found")
    participants ← gets (λ w. db.find_many (participant_of id) [] w.participants)
    pure (record { conversation = conversation; participants = participants })

  unfoldable pub find_messages : String → String → Paging → M (Paged FrontendMessage)
  unfolding get_conversation_participant_data map_message
  find_messages id user_id query = do
    data_row ← get_conversation_participant_data id user_id
    page ← gets (λ w. find_paged db (message_of id) newest_message query w.messages)
    let shown : Message → FrontendMessage = λ m.
        map_message m user_id (other_user_of user_id data_row.participants)
          (last_read_of user_id data_row.participants) data_row.conversation.listing_id
    pure (reversed (record { data_rows = map shown page.data_rows; meta = page.meta }))

  module _ (u : Unicode) (now : ℕ) where
    abbrev pub recipients : String → List ConversationParticipant → List String
    recipients user_id participants =
        keep (λ id. not (id == user_id))
          (map (λ (p : ConversationParticipant). p.user_id) participants)

    -- The query for a block, where there is a recipient.
    unfoldable pub check_blocked : String → List String → M (Unit {0})
    check_blocked user_id [] = skip
    check_blocked user_id (r ∷ rest) = do
      blocked ← gets (λ w.
          db.find_first
            (λ (b : UserBlock).
              any (λ id. b.blocker_id == id) (r ∷ rest) && b.blocked_id == user_id)
            List.[] w.blocks)
      elim blocked [ none ↦ skip | some b ↦ throw (forbidden "You are blocked by this user") ]

    unfoldable pub create_message : String → String → String → String → MessageType → M Message
    create_message id user_id content image_url type = do
      message_id ← fresh db
      let row : Message = record {
        id = message_id;
        content = non_empty content;
        image_url = non_empty image_url;
        type = type;
        conversation_id = id;
        sender_id = user_id;
        created_at = now;
      }
      modify (λ w. record w {
        messages = db.create row w.messages;
        conversations =
            (db.update_many (λ (c : Conversation). c.id == id) (with_last_message now)
              w.conversations).0;
      })
      pure row

    -- One notification for each recipient, in their order.
    unfoldable pub notify_all : String → Message → String → List String → M (Unit {0})
    unfolding Notifications.create
    notify_all id message preview [] = skip
    notify_all id message preview (r ∷ rest) = do
      Notifications.create db now r NotificationType.new_message "Tin nhan moi" preview (
          some (record {
            listing_id = none;
            conversation_id = some id;
            message_id = some message.id;
            sender_id = some message.sender_id;
          }))
      notify_all id message preview rest

    -- `sendMessageInternal` from its transaction on.
    unfoldable pub deliver_message :
        String → String → ParticipantData → String → String → MessageType → M SendMessageResult
    unfolding create_message notify_all map_message
    deliver_message id user_id data_row content image_url type = do
      message ← create_message id user_id content image_url type
      notify_all id message (preview_text content type) (recipients user_id data_row.participants)
      pure (record {
        message =
            map_message message user_id (other_user_of user_id data_row.participants)
              (last_read_of user_id data_row.participants) data_row.conversation.listing_id;
        participant_ids = map (λ (p : ConversationParticipant). p.user_id) data_row.participants;
      })

    unfoldable pub send_message_internal : String → String → SendMessageDto → M SendMessageResult
    unfolding get_conversation_participant_data check_blocked deliver_message
    send_message_internal id user_id payload = do
      data_row ← get_conversation_participant_data id user_id
      let content : String = text_of payload.content
      let image_url : String = text_of payload.image_url
      throw_if (not (truthy content) && not (truthy image_url))
          (bad_request "content or imageUrl is required")
      let type : MessageType = message_type (u.to_lower (text_of payload.type)) content image_url
      check_blocked user_id (recipients user_id data_row.participants)
      deliver_message id user_id data_row content image_url type

    unfoldable pub mark_read : String → String → M String
    unfolding get_conversation_participant_data
    mark_read id user_id = do
      get_conversation_participant_data id user_id
      modify (λ w. record w {
        participants = (db.update_many (seat_of id user_id) (with_last_read now) w.participants).0;
      })
      pure "Conversation marked as read"
