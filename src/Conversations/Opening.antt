-- ===== src/Conversations/Opening.antt =====
-- src/modules/conversations/conversations.service.ts: `findMine` and `create`, with what they load.
pub mod Reuse
use nestjs_learn.Prelude.{
  ℕ, ◌+◌, Bool, true, false, not, ◌&&◌, ◌||◌, Option, none, some, List, [], ◌∷◌, ◌++◌, map, String,
  any, ◌==◌, if◌then◌else◌,
}
use nestjs_learn.Prisma.{Prisma, Order, asc, desc}
use nestjs_learn.Schema.{
  User, Listing, ListingImage, Conversation, ConversationParticipant, Message, Category, Favorite,
}
use nestjs_learn.Text.{trim, truthy}
use nestjs_learn.World.{
  World, M, Exception, bad_request, not_found, database, ◌>>=◌, ◌>>◌, pure, throw, gets, modify,
  require, throw_if, skip, fresh,
}
use nestjs_learn.Listings.Types.{ListingWithRelations}
use nestjs_learn.Conversations.{
  ConversationWithRelations, FrontendConversation, participant_of, seat_of, message_of,
  last_read_of, is_unread, newest_message, map_conversation,
}

abbrev pub CreateConversationDto : Type 0
CreateConversationDto = String × Option String

-- `payload.productId?.trim() || null`.
abbrev pub listing_id_of : Option String → Option String
listing_id_of none = none
listing_id_of (some s) = if truthy (trim s) then some (trim s) else none

abbrev pub same_listing : Option String → Option String → Bool
same_listing none none = true
same_listing none (some b) = false
same_listing (some a) none = false
same_listing (some a) (some b) = a == b

-- The order of `findMine`: PostgreSQL puts the rows without a last message first in a descending
-- order.
abbrev pub last_message_key : Conversation → ℕ
last_message_key c = elim c.last_message_at [ none ↦ 1 | some t ↦ 0 ]

abbrev pub last_message_time : Conversation → ℕ
last_message_time c = elim c.last_message_at [ none ↦ 0 | some t ↦ t ]

abbrev pub latest_first : List (Order Conversation)
latest_first = desc last_message_key ∷ desc last_message_time ∷ desc (λ c. c.created_at) ∷ []

module _ (db : Prisma) where
  unfoldable pub load_users :
      List ConversationParticipant → M (List (ConversationParticipant × User))
  load_users [] = pure List.[]
  load_users (p ∷ rest) = do
    found ← gets (λ w. db.find_first (λ (x : User). x.id == p.user_id) List.[] w.users)
    user ← require found (database "user")
    others ← load_users rest
    pure ((p, user) ∷ others)

  -- The listing of a conversation, with neither its runs nor its job.
  unfoldable pub load_listing : Option String → M (Option ListingWithRelations)
  load_listing none = pure Option.none
  load_listing (some id) = do
    found ← gets (λ w. db.find_first (λ (l : Listing). l.id == id) [] w.listings)
    l ← require found (database "listing")
    found_seller ← gets (λ w. db.find_first (λ (s : User). s.id == l.seller_id) [] w.users)
    seller ← require found_seller (database "seller")
    found_category ←
        gets (λ w. db.find_first (λ (c : Category). c.id == l.category_id) [] w.categories)
    category ← require found_category (database "category")
    images ← gets (λ w.
        db.find_many (λ (i : ListingImage). i.listing_id == l.id) (asc (λ i. i.order) ∷ [])
          w.images)
    favorites ← gets (λ w. db.find_many (λ (f : Favorite). f.listing_id == l.id) [] w.favorites)
    pure (
        some (record {
          listing = l;
          seller = seller;
          category = category;
          images = images;
          favorites = favorites;
          moderation_runs = [];
          moderation_job = none;
        }))

  unfoldable pub conversation_include : Conversation → M ConversationWithRelations
  unfolding load_users load_listing
  conversation_include c = do
    listing ← load_listing c.listing_id
    rows ← gets (λ w. db.find_many (participant_of c.id) [] w.participants)
    participants ← load_users rows
    messages ← gets (λ w. db.find_page (message_of c.id) newest_message 0 1 w.messages)
    pure (record {
      conversation = c;
      listing = listing;
      participants = participants;
      messages = messages;
    })

  abbrev pub seats : ConversationWithRelations → List ConversationParticipant
  seats c = map (λ (p : ConversationParticipant × User). p.0) c.participants

  -- The `where` of `groupBy`: messages of others that pass the filter of one of the conversations.
  abbrev pub counted : String → List ConversationWithRelations → Message → Bool
  counted user_id conversations m =
      any (λ c. is_unread c.conversation.id user_id (last_read_of user_id (seats c)) m)
        conversations

  -- The entry of a conversation in the map of `loadUnreadCounts`, 0 if there is none.
  unfoldable pub unread_count_of : String → List ConversationWithRelations → String → M ℕ
  unread_count_of user_id conversations id = gets (λ w.
      db.count_rows (λ m. counted user_id conversations m && m.conversation_id == id) w.messages)

  unfoldable pub include_conversations : List Conversation → M (List ConversationWithRelations)
  unfolding conversation_include
  include_conversations [] = pure List.[]
  include_conversations (c ∷ rest) = do
    first ← conversation_include c
    others ← include_conversations rest
    pure (first ∷ others)

  unfoldable pub show_conversations :
      String
      → List ConversationWithRelations
      → List ConversationWithRelations
      → M (List FrontendConversation)
  unfolding unread_count_of map_conversation
  show_conversations user_id all [] = pure List.[]
  show_conversations user_id all (c ∷ rest) = do
    unread ← unread_count_of user_id all c.conversation.id
    others ← show_conversations user_id all rest
    pure (map_conversation c user_id unread ∷ others)

  unfoldable pub find_mine : String → M (List FrontendConversation)
  unfolding include_conversations show_conversations
  find_mine user_id = do
    rows ← gets (λ w.
        db.find_many (λ c. any (seat_of c.id user_id) w.participants) latest_first w.conversations)
    conversations ← include_conversations rows
    show_conversations user_id conversations conversations

  -- The where clause of `create`: about the same listing, with both users, and with nobody else.
  abbrev pub is_between :
      Option String → String → String → List ConversationParticipant → Conversation → Bool
  is_between listing_id user_id participant_id participants c =
      same_listing c.listing_id listing_id
      && any (seat_of c.id user_id) participants
      && any (seat_of c.id participant_id) participants
      && not (
          any
            (λ p.
              p.conversation_id == c.id
              && not (p.user_id == user_id || p.user_id == participant_id))
            participants)

  unfoldable pub find_existing : Option String → String → String → World → Option Conversation
  find_existing listing_id user_id participant_id w =
      db.find_first (is_between listing_id user_id participant_id w.participants) [] w.conversations

  -- Where the client names a listing, it must be there.
  unfoldable pub check_listing : Option String → M (Unit {0})
  check_listing none = skip
  check_listing (some id) = do
    found ← gets (λ w. db.find_first (λ (l : Listing). l.id == id) [] w.listings)
    elim found [ none ↦ throw (not_found "Listing not found") | some l ↦ skip ]

  unfoldable pub show_existing : String → Conversation → M FrontendConversation
  unfolding conversation_include unread_count_of map_conversation
  show_existing user_id existing = do
    c ← conversation_include existing
    unread ← unread_count_of user_id (c ∷ []) existing.id
    pure (map_conversation c user_id unread)

  abbrev pub new_seat : String → String → String → ConversationParticipant
  new_seat id conversation_id user_id = record {
    id = id;
    last_read_at = none;
    conversation_id = conversation_id;
    user_id = user_id;
  }

  -- The rows that the nested `create` makes.
  unfoldable pub open_new : ℕ → Option String → String → String → M Conversation
  open_new now listing_id user_id participant_id = do
    id ← fresh db
    first ← fresh db
    second ← fresh db
    let row : Conversation = record {
      id = id;
      last_message_at = none;
      listing_id = listing_id;
      created_at = now;
    }
    modify (λ w. record w {
      conversations = db.create row w.conversations;
      participants =
          db.create (new_seat second id participant_id)
            (db.create (new_seat first id user_id) w.participants);
    })
    pure row

  unfoldable pub show_new : String → Conversation → M FrontendConversation
  unfolding conversation_include map_conversation
  show_new user_id row = do c ← conversation_include row; pure (map_conversation c user_id 0)

  unfoldable pub create : ℕ → String → CreateConversationDto → M FrontendConversation
  unfolding check_listing find_existing show_existing open_new show_new
  create now user_id (participant, product_id) = do
    let listing_id : Option String = listing_id_of product_id
    let participant_id : String = trim participant
    throw_if (participant_id == user_id) (bad_request "Cannot create conversation with yourself")
    found ← gets (λ w. db.find_first (λ (x : User). x.id == participant_id) [] w.users)
    user ← require found (not_found "Participant not found")
    check_listing listing_id
    existing ← gets (find_existing listing_id user_id participant_id)
    elim existing [
      | some c ↦ show_existing user_id c
      | none ↦ do row ← open_new now listing_id user_id participant_id; show_new user_id row
    ]
