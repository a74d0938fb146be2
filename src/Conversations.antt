-- ===== src/Conversations.antt =====
-- backend/app/routers/conversations.py: the conversations of a user and their messages. Ids and the
-- readings of the clock are arguments; the user and the ids in the path are strings.
pub mod Messages
pub mod Positions
pub mod Ownership
pub mod Views
pub mod Edits
pub mod Commands
pub mod Squares
pub mod Refinement
use ai_inference_platform.Prelude.{
  ℕ, ◌≤◌, Bool, true, false, not, ◌&&◌, ◌||◌, Option, none, some, List, [], ◌∷◌, ◌++◌, map, Text,
  text, text_eq, strip, select, update_where, find, take, drop, length, leb, ltb, ◌==◌,
  if◌then◌else◌,
}
use ai_inference_platform.Errors.{
  Error, Result, ok, err, app_error, unhandled, not_found, forbidden, data_error,
}
use ai_inference_platform.Ids.{UuidText, parse_uuid}
use ai_inference_platform.Models.{Db, Conversation, ChatMessage}
use ai_inference_platform.Session.{
  World, Action, pure, raise, lift, query, raise_if, or_raise, change, ◌>>=◌, ◌>>◌,
}
use ai_inference_platform.CurrentUser.{CurrentUser}

-- `ChatMessage.conversation_id == id`
abbrev pub in_conversation : ℕ → ChatMessage → Bool
in_conversation id m = m.conversation_id == id

unfoldable pub messages_of : ℕ → Db → List ChatMessage
messages_of id db = select (in_conversation id) db.messages

abbrev pub update_conversation_row : ℕ → (Conversation → Conversation) → Db → Db
update_conversation_row id f db = record db {
  conversations = update_where (λ c. c.id == id) f db.conversations;
}

unfoldable pub conversation_by_id : ℕ → Db → Option Conversation
conversation_by_id id db = find (λ c. c.id == id) db.conversations

-- The lookup and the ownership check at the head of every endpoint for one conversation.
unfoldable pub owned_conversation : (conv_id : UuidText) → CurrentUser → Action Conversation
owned_conversation conv_id user = do
  id ← lift (parse_uuid conv_id)
  found ← query (conversation_by_id id)
  conv ← or_raise found (app_error not_found "Conversation not found")
  user_id ← lift (parse_uuid user.user_id)
  raise_if (not (conv.user_id == user_id))
      (app_error forbidden "You do not have access to this conversation")
  pure conv

-- A text that does not fit its column: PostgreSQL refuses the row when the session flushes it.
abbrev pub is_too_long : (limit : ℕ) → Text → Bool
is_too_long limit t = ltb limit (length t)

abbrev pub is_any_too_long : (limit : ℕ) → Option Text → Bool
is_any_too_long limit none = false
is_any_too_long limit (some t) = is_too_long limit t

abbrev pub new_conversation :
    (id now user_id : ℕ) → (title : Text) → (model_name : Option Text) → Conversation
new_conversation id now user_id title model_name = record {
  id = id;
  user_id = user_id;
  title = title;
  model_name = model_name;
  created_at = now;
  updated_at = now;
}

unfoldable pub create_conversation :
    (id now : ℕ) → (title : Text) → (model_name : Option Text) → CurrentUser → Action Conversation
create_conversation id now title model_name user = do
  user_id ← lift (parse_uuid user.user_id)
  raise_if (is_too_long 200 title || is_any_too_long 100 model_name) (unhandled data_error)
  let conv = new_conversation id now user_id title model_name
  change (λ db. record db { conversations = db.conversations ++ conv ∷ [] })
  pure conv

-- A row of the listing: a conversation and the number of its messages.
abbrev pub with_count : Db → Conversation → Conversation × ℕ
with_count db c = (c, length (messages_of c.id db))

-- `ORDER BY updated_at DESC`
unfoldable pub insert_newest : Conversation → List Conversation → List Conversation
insert_newest c [] = c ∷ []
insert_newest c (d ∷ ds) =
    let later = insert_newest c ds in
    if leb d.updated_at c.updated_at then c ∷ d ∷ ds else d ∷ later

unfoldable pub newest_first : List Conversation → List Conversation
unfolding insert_newest
newest_first [] = []
newest_first (c ∷ cs) = insert_newest c (newest_first cs)

unfoldable pub list_conversations :
    (limit offset : ℕ) → CurrentUser → Action (List (Conversation × ℕ))
unfolding newest_first messages_of
list_conversations limit offset user = do
  user_id ← lift (parse_uuid user.user_id)
  query (λ db. map (with_count db) (
      take limit
        (drop offset (newest_first (select (λ c. c.user_id == user_id) db.conversations)))))

-- `order_by="ChatMessage.position"`
unfoldable pub insert_position : ChatMessage → List ChatMessage → List ChatMessage
insert_position m [] = m ∷ []
insert_position m (n ∷ ns) =
    let later = insert_position m ns in if leb m.position n.position then m ∷ n ∷ ns else n ∷ later

unfoldable pub by_position : List ChatMessage → List ChatMessage
unfolding insert_position
by_position [] = []
by_position (m ∷ ms) = insert_position m (by_position ms)

unfoldable pub get_conversation :
    (conv_id : UuidText) → CurrentUser → Action (Conversation × List ChatMessage)
get_conversation conv_id user = do
  conv ← owned_conversation conv_id user
  messages ← query (messages_of conv.id)
  pure (conv, by_position messages)

-- The reply counts the messages.
unfoldable pub update_conversation :
    (now : ℕ) → (conv_id : UuidText) → (title : Text) → CurrentUser → Action (Conversation × ℕ)
update_conversation now conv_id title user = do
  conv ← owned_conversation conv_id user
  raise_if (is_too_long 200 title) (unhandled data_error)
  change (update_conversation_row conv.id (λ c. record c { title = title; updated_at = now }))
  messages ← query (messages_of conv.id)
  pure (record conv { title = title; updated_at = now }, length messages)

-- The messages go with the conversation.
unfoldable pub delete_conversation : (conv_id : UuidText) → CurrentUser → Action (Unit {0})
delete_conversation conv_id user = do
  conv ← owned_conversation conv_id user
  change (λ db. record db {
    conversations = select (λ c. not (c.id == conv.id)) db.conversations;
    messages = select (λ m. not (in_conversation conv.id m)) db.messages;
  })

-- `title[:40] + "…" if len(title) > 40 else title`
unfoldable pub title_from : (content : Text) → Text
unfolding strip
title_from content =
    let title = strip content in if ltb 40 (length title) then take 40 title ++ text "…" else title

-- The title of the conversation after a message at a position; it has at most 41 characters where
-- it is new, and so fits its column.
unfoldable pub new_title : (role content : Text) → (position : ℕ) → Text → Text
unfolding text_eq title_from
new_title role content position title =
    if text_eq role (text "user") && position == 0 then title_from content else title

abbrev pub new_message :
    (id now conversation_id user_id : ℕ) → (role content : Text) → (position : ℕ) → ChatMessage
new_message id now conversation_id user_id role content position = record {
  id = id;
  conversation_id = conversation_id;
  user_id = user_id;
  role = role;
  content = content;
  position = position;
  created_at = now;
}

unfoldable pub save_message :
    (id now : ℕ) → (conv_id : UuidText) → (role content : Text) → CurrentUser → Action ChatMessage
save_message id now conv_id role content user = do
  conv ← owned_conversation conv_id user
  user_id ← lift (parse_uuid user.user_id)
  raise_if (is_too_long 20 role) (unhandled data_error)
  messages ← query (messages_of conv.id)
  let position = length messages
  let msg = new_message id now conv.id user_id role content position
  change (λ db. record db { messages = db.messages ++ msg ∷ [] })
  change (
      update_conversation_row conv.id
        (λ c. record c { title = new_title role content position c.title; updated_at = now }))
  pure msg

unfoldable pub owned_message : (msg_id : UuidText) → Conversation → Action ChatMessage
owned_message msg_id conv = do
  id ← lift (parse_uuid msg_id)
  found ← query (λ db. find (λ m. m.id == id && in_conversation conv.id m) db.messages)
  or_raise found (app_error not_found "Message not found")

-- The role of the request is not used.
unfoldable pub update_message :
    (now : ℕ) → (conv_id msg_id : UuidText) → (content : Text) → CurrentUser → Action ChatMessage
update_message now conv_id msg_id content user = do
  conv ← owned_conversation conv_id user
  msg ← owned_message msg_id conv
  change (λ db. record db {
    messages = update_where (λ m. m.id == msg.id) (λ m. record m { content = content }) db.messages;
  })
  change (update_conversation_row conv.id (λ c. record c { updated_at = now }))
  pure (record msg { content = content })

-- `position >= msg.position`
abbrev pub from_position : ℕ → ℕ → ChatMessage → Bool
from_position id position m = in_conversation id m && leb position m.position

unfoldable pub delete_messages_from :
    (now : ℕ) → (conv_id msg_id : UuidText) → CurrentUser → Action (Unit {0})
delete_messages_from now conv_id msg_id user = do
  conv ← owned_conversation conv_id user
  msg ← owned_message msg_id conv
  change (λ db. record db {
    messages = select (λ m. not (from_position conv.id msg.position m)) db.messages;
  })
  change (update_conversation_row conv.id (λ c. record c { updated_at = now }))
