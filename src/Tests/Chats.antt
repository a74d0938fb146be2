-- ===== src/Tests/Chats.antt =====
-- Examples of the conversations.
use ai_inference_platform.Prelude.{
  map, text_eq, strip, lstrip, rstrip, ℕ, ◌≡◌, refl, none, some, List, [], ◌∷◌, text, arith,
}
use ai_inference_platform.Models.{ChatMessage, Conversation, empty_db, viewer}
use ai_inference_platform.Conversations.{
  new_message, create_conversation, save_message, owned_conversation, owned_message,
  delete_messages_from, get_conversation, by_position, insert_position, new_title, title_from,
  messages_of, conversation_by_id,
}
use ai_inference_platform.Conversations.Commands.{view}
use ai_inference_platform.Conversations.Views.{line}
use ai_inference_platform.Conversations.Refinement.{commands, replay, perform_all-refines}
use ai_inference_platform.Ids.{canonical, parse_uuid}
use ai_inference_platform.Session.{World, empty_world}
use ai_inference_platform.CurrentUser.{CurrentUser}
use ai_inference_platform.Conversations.Positions.{
  Request, create, save, edit, delete_from, perform, perform_all,
}
use ai_inference_platform.Conversations.Ownership.{foreign_write}

abbrev user : ℕ → CurrentUser
user id = record {
  user_id = canonical id;
  email = text "ada@example.org";
  name = text "Ada";
  org_id = canonical 9;
  role = viewer;
  api_key_id = none;
}

abbrev chat : List (CurrentUser × Request)
chat =
    (user 1, create 10 0 (text "New Chat") none)
    ∷ (user 1, save 20 1 (canonical 10) (text "user") (text "Hello"))
    ∷ (user 2, save 21 2 (canonical 10) (text "user") (text "Intruder"))
    ∷ (user 1, save 22 3 (canonical 10) (text "assistant") (text "Hi"))
    ∷ (user 1, delete_from 4 (canonical 10) (canonical 22))
    ∷ []

abbrev conversation : Conversation
conversation = record {
  id = 10;
  user_id = 1;
  title = text "Hello";
  model_name = none;
  created_at = 0;
  updated_at = 0;
}

abbrev greeting : ChatMessage
greeting = new_message 20 1 10 1 (text "user") (text "Hello") 0

-- A conversation of each of two users, with a message in the first.
abbrev of_two : World
of_two = record empty_world {
  db = record empty_db {
    conversations = conversation ∷ record conversation { id = 11; user_id = 2 } ∷ [];
    messages = greeting ∷ [];
  };
}

found : conversation_by_id 10 of_two.db ≡ some conversation
unfolding conversation_by_id
found = refl

-- The second user names the own conversation and the message of the other.
abbrev intrusion : Request
intrusion = edit 2 (canonical 11) (canonical 20) (text "Changed")

foreign_write_example :
    (conversation_by_id 10 (perform (user 2) intrusion of_two).db ≡ some conversation)
    × (messages_of 10 (perform (user 2) intrusion of_two).db ≡ messages_of 10 of_two.db)
foreign_write_example =
    foreign_write (user 2) 10 2 conversation of_two (unfold parse_uuid in refl) found
      (λ e. omega (arith, e)) intrusion (tt, tt)

abbrev greeted : Conversation
greeted = record conversation { title = text "Hello"; updated_at = 4 }

perform_all-refines_example :
    map line (greeting ∷ []) ≡ replay (commands chat empty_world) (view empty_db) 10
perform_all-refines_example =
    perform_all-refines chat empty_world (canonical 10) (user 1) greeted (greeting ∷ [])
      (record { counts = λ id. unfold messages_of in tt })
      (unfold perform create_conversation save_message owned_conversation conversation_by_id
          parse_uuid messages_of owned_message delete_messages_from in
        (tt, (tt, ((tt, tt), ((tt, tt), (((λ e. omega (arith, e), tt), (tt, tt)), tt))))))
      (unfold perform_all perform create_conversation save_message owned_conversation
          conversation_by_id parse_uuid messages_of owned_message delete_messages_from
          get_conversation by_position insert_position new_title title_from text_eq strip lstrip
          rstrip in
        refl)
