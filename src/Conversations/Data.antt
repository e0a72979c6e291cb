-- ===== src/Conversations/Data.antt =====
-- src/modules/conversations/conversations.service.ts: the data that it takes and gives, its mappers,
-- and the tests on rows.
use nestjs_learn.Prelude.{
  ℕ, Bool, true, false, not, ◌&&◌, ◌||◌, Option, none, some, List, [], ◌∷◌, map, reverse, String,
  leb, ltb, ◌==◌, if◌then◌else◌,
}
use nestjs_learn.Prisma.{Order, desc}
use nestjs_learn.Schema.{User, Conversation, ConversationParticipant, Message, MessageType}
use nestjs_learn.Text.{trim, truthy}
use nestjs_learn.Pagination.{Paged}
use nestjs_learn.Users.Mapper.{FrontendUser, map_user_to_frontend, or_else}
use nestjs_learn.Listings.Types.{ListingWithRelations, FrontendListing}
use nestjs_learn.Listings.Mapper.{map_listing_to_frontend, map_option, first_of}

pub record FrontendMessage : Type 0 where
  pub id : String
  pub sender_id : String
  pub receiver_id : String
  pub content : String
  pub type : String
  pub image_url : Option String
  pub created_at : ℕ
  pub read : Bool
  pub product_id : Option String

pub record SendMessageResult : Type 0 where
  pub message : FrontendMessage
  pub participant_ids : List String

pub record SendMessageDto : Type 0 where
  pub content : Option String
  pub image_url : Option String
  pub type : Option String

-- What `conversationInclude` loads.
pub record ConversationWithRelations : Type 0 where
  pub conversation : Conversation
  pub listing : Option ListingWithRelations
  pub participants : List (ConversationParticipant × User)
  pub messages : List Message

-- What `getConversationParticipantData` loads.
pub record ParticipantData : Type 0 where
  pub conversation : Conversation
  pub participants : List ConversationParticipant

pub record FrontendConversation : Type 0 where
  pub id : String
  pub participants : List FrontendUser
  pub product : Option FrontendListing
  pub last_message : Option FrontendMessage
  pub unread_count : ℕ
  pub updated_at : ℕ

abbrev pub is_image : MessageType → Bool
is_image MessageType.image = true
is_image MessageType.text = false

abbrev pub find_row : {A : Type 0} → (A → Bool) → List A → Option A
find_row test [] = none
find_row test (a ∷ rest) = let later = find_row test rest in if test a then some a else later

abbrev pub participant_of : String → ConversationParticipant → Bool
participant_of id p = p.conversation_id == id

-- The participant of a conversation that is the user.
abbrev pub seat_of : String → String → ConversationParticipant → Bool
seat_of id user_id p = p.conversation_id == id && p.user_id == user_id

abbrev pub message_of : String → Message → Bool
message_of id m = m.conversation_id == id

abbrev pub last_read_of : String → List ConversationParticipant → Option ℕ
last_read_of user_id participants = elim (find_row (λ p. p.user_id == user_id) participants) [
  | none ↦ none
  | some me ↦ me.last_read_at
]

abbrev pub other_user_of : String → List ConversationParticipant → String
other_user_of user_id participants =
    elim (find_row (λ (p : ConversationParticipant). not (p.user_id == user_id)) participants) [
      | none ↦ user_id
      | some p ↦ p.user_id
    ]

abbrev pub is_read_at : Option ℕ → ℕ → Bool
is_read_at none created_at = false
is_read_at (some read_at) created_at = leb created_at read_at

unfoldable pub map_message : Message → String → String → Option ℕ → Option String → FrontendMessage
map_message m current_user_id other_user_id my_last_read_at listing_id = record {
  id = m.id;
  sender_id = m.sender_id;
  receiver_id = if m.sender_id == current_user_id then other_user_id else current_user_id;
  content = or_else m.content "";
  type = if is_image m.type then "image" else "text";
  image_url = m.image_url;
  created_at = m.created_at;
  read = if m.sender_id == current_user_id then true else is_read_at my_last_read_at m.created_at;
  product_id = listing_id;
}

unfoldable pub map_conversation : ConversationWithRelations → String → ℕ → FrontendConversation
unfolding map_message map_user_to_frontend map_listing_to_frontend
map_conversation c current_user_id unread_count =
    let participants = map (λ (p : ConversationParticipant × User). p.0) c.participants in
    record {
      id = c.conversation.id;
      participants =
          map (λ (p : ConversationParticipant × User). map_user_to_frontend p.1) c.participants;
      product = map_option (λ l. map_listing_to_frontend l (some current_user_id)) c.listing;
      last_message =
          map_option
            (λ m.
              map_message m current_user_id (other_user_of current_user_id participants)
                (last_read_of current_user_id participants) c.conversation.listing_id)
            (first_of c.messages);
      unread_count = unread_count;
      updated_at = or_else c.conversation.last_message_at c.conversation.created_at;
    }

-- The filter of one conversation in `loadUnreadCounts`, on messages of others.
abbrev pub is_unread : String → String → Option ℕ → Message → Bool
is_unread id user_id none m = m.conversation_id == id && not (m.sender_id == user_id)
is_unread id user_id (some read_at) m =
    m.conversation_id == id && not (m.sender_id == user_id) && ltb read_at m.created_at

abbrev pub text_of : Option String → String
text_of none = ""
text_of (some s) = trim s

abbrev pub non_empty : String → Option String
non_empty s = if truthy s then some s else none

-- `forcedType === 'image' || (!forcedType && imageUrl && !content)`.
abbrev pub message_type : String → String → String → MessageType
message_type forced content image_url =
    if forced == "image" || not (truthy forced) && truthy image_url && not (truthy content)
    then MessageType.image
    else MessageType.text

abbrev pub preview_text : String → MessageType → String
preview_text content type =
    if truthy content
    then content
    else if is_image type
    then "Ban vua nhan mot hinh anh moi"
    else "Ban vua nhan mot tin nhan moi"

abbrev pub newest_message : List (Order Message)
newest_message = desc (λ m. m.created_at) ∷ []

abbrev pub with_last_message : ℕ → Conversation → Conversation
with_last_message now c = record c { last_message_at = some now }

abbrev pub with_last_read : ℕ → ConversationParticipant → ConversationParticipant
with_last_read now p = record p { last_read_at = some now }

-- `[...messages].reverse()` of a page.
abbrev pub reversed : Paged FrontendMessage → Paged FrontendMessage
reversed page = record page { data_rows = reverse page.data_rows }
