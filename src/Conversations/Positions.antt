-- ===== src/Conversations/Positions.antt =====
-- The positions of the messages of a conversation count up from 0, in the order of the table.

use ai_inference_platform.Prelude.{
  ℕ, ◌≡◌, refl, Option, List, [], ◌∷◌, arith, Text, length, inl, inr, Bool-cases, ltb,
}
use ai_inference_platform.Errors.{Result-cases}
use ai_inference_platform.Ids.{UuidText, parse_uuid}
use ai_inference_platform.Models.{Conversation}
use ai_inference_platform.Session.{World}
use ai_inference_platform.CurrentUser.{CurrentUser}
use ai_inference_platform.Conversations.{
  messages_of, new_message, owned_conversation, owned_message, save_message, update_message,
  delete_messages_from, update_conversation, delete_conversation, create_conversation,
}
use ai_inference_platform.Conversations.Messages.{
  IsOrdered, Left, same, appended, edited, truncated, removed, Counts-Left,
}

-- Each endpoint that writes, for every request, valid or not.
messages-create :
    (id now : ℕ) (title : Text) (model_name : Option Text) (user : CurrentUser) (w : World)
    → Left w.db.messages (create_conversation id now title model_name user w).1.db.messages
unfolding create_conversation parse_uuid
messages-create id now title model_name user w = same (ground arith)

pub owned_same :
    (c : UuidText) (user : CurrentUser) (w : World) → (owned_conversation c user w).1 ≡ w
unfolding owned_conversation
owned_same c user w = ground arith

messages-update :
    (now : ℕ) (c : UuidText) (title : Text) (user : CurrentUser) (w : World)
    → Left w.db.messages (update_conversation now c title user w).1.db.messages
unfolding update_conversation
messages-update now c title user w = same (ground (arith, owned_same c user w))

messages-save :
    (id now : ℕ) (c : UuidText) (role content : Text) (user : CurrentUser) (w : World)
    → Left w.db.messages (save_message id now c role content user w).1.db.messages
unfolding save_message
messages-save id now c role content user w =
    let silent = owned_same c user w in
    elim (Result-cases (owned_conversation c user w).0) [
      | inl (e, failed) ↦ same (ground (arith, failed, silent))
      | inr (conv, owned) ↦ elim (Result-cases (parse_uuid user.user_id)) [
        | inl (e, failed) ↦ same (ground (arith, owned, failed, silent))
        | inr (user_id, parsed) ↦ elim (Bool-cases (ltb 20 (length role))) [
          | inl long ↦ same (ground (arith, owned, parsed, silent, long))
          | inr fits ↦
              appended
                (new_message id now conv.id user_id role content
                  (length (messages_of conv.id w.db)))
                (unfold messages_of in refl) (ground (arith, owned, parsed, silent, fits))
        ]
      ]
    ]

pub owned_message-same :
    (m : UuidText) (conv : Conversation) (w : World) → (owned_message m conv w).1 ≡ w
unfolding owned_message
owned_message-same m conv w = ground arith

messages-edit :
    (now : ℕ) (c m : UuidText) (content : Text) (user : CurrentUser) (w : World)
    → Left w.db.messages (update_message now c m content user w).1.db.messages
unfolding update_message
messages-edit now c m content user w =
    let silent = owned_same c user w in
    elim (Result-cases (owned_conversation c user w).0) [
      | inl (e, failed) ↦ same (ground (arith, failed, silent))
      | inr (conv, owned) ↦
          let silent' = owned_message-same m conv w in
          elim (Result-cases (owned_message m conv w).0) [
            | inl (e, failed) ↦ same (ground (arith, owned, failed, silent, silent'))
            | inr (msg, found) ↦
                edited msg.id content (ground (arith, owned, found, silent, silent'))
          ]
    ]

messages-delete_from :
    (now : ℕ) (c m : UuidText) (user : CurrentUser) (w : World)
    → Left w.db.messages (delete_messages_from now c m user w).1.db.messages
unfolding delete_messages_from
messages-delete_from now c m user w =
    let silent = owned_same c user w in
    elim (Result-cases (owned_conversation c user w).0) [
      | inl (e, failed) ↦ same (ground (arith, failed, silent))
      | inr (conv, owned) ↦
          let silent' = owned_message-same m conv w in
          elim (Result-cases (owned_message m conv w).0) [
            | inl (e, failed) ↦ same (ground (arith, owned, failed, silent, silent'))
            | inr (msg, found) ↦
                truncated conv.id msg.position (ground (arith, owned, found, silent, silent'))
          ]
    ]

messages-delete :
    (c : UuidText) (user : CurrentUser) (w : World)
    → Left w.db.messages (delete_conversation c user w).1.db.messages
unfolding delete_conversation
messages-delete c user w =
    let silent = owned_same c user w in
    elim (Result-cases (owned_conversation c user w).0) [
      | inl (e, failed) ↦ same (ground (arith, failed, silent))
      | inr (conv, owned) ↦ removed conv.id (ground (arith, owned, silent))
    ]

-- The requests that write.
pub data Request : Type 0 where
  create : (id now : ℕ) → (title : Text) → (model_name : Option Text) → Request
  rename : (now : ℕ) → (conv_id : UuidText) → (title : Text) → Request
  delete : (conv_id : UuidText) → Request
  save : (id now : ℕ) → (conv_id : UuidText) → (role content : Text) → Request
  edit : (now : ℕ) → (conv_id msg_id : UuidText) → (content : Text) → Request
  delete_from : (now : ℕ) → (conv_id msg_id : UuidText) → Request

-- The world after a request of a user.
unfoldable pub perform : CurrentUser → Request → World → World
perform user (create id now title model_name) w =
    (create_conversation id now title model_name user w).1
perform user (rename now c title) w = (update_conversation now c title user w).1
perform user (delete c) w = (delete_conversation c user w).1
perform user (save id now c role content) w = (save_message id now c role content user w).1
perform user (edit now c m content) w = (update_message now c m content user w).1
perform user (delete_from now c m) w = (delete_messages_from now c m user w).1

perform-Left :
    (user : CurrentUser) (r : Request) (w : World)
    → Left w.db.messages (perform user r w).db.messages
unfolding perform
perform-Left user (create id now title model_name) w =
    messages-create id now title model_name user w
perform-Left user (rename now c title) w = messages-update now c title user w
perform-Left user (delete c) w = messages-delete c user w
perform-Left user (save id now c role content) w = messages-save id now c role content user w
perform-Left user (edit now c m content) w = messages-edit now c m content user w
perform-Left user (delete_from now c m) w = messages-delete_from now c m user w

-- Requests one after the other, each of its own user.
unfoldable pub perform_all : List (CurrentUser × Request) → World → World
unfolding perform
perform_all [] w = w
perform_all ((user, r) ∷ rest) w = perform_all rest (perform user r w)

-- Whatever the requests, valid or not, by whatever users: if the messages of every conversation
-- were numbered 0, 1, 2 and so on in the order of the table, they are so afterwards.
pub perform_all-IsOrdered :
    (requests : List (CurrentUser × Request)) (w : World)
    → IsOrdered w.db
    → IsOrdered (perform_all requests w).db
unfolding perform_all messages_of
perform_all-IsOrdered [] w h = h
perform_all-IsOrdered ((user, r) ∷ rest) w h =
    perform_all-IsOrdered rest (perform user r w) (record {
      counts =
          Counts-Left w.db.messages (perform user r w).db.messages (perform-Left user r w) h.counts;
    })
