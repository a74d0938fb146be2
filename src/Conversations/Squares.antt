-- ===== src/Conversations/Squares.antt =====
-- Each endpoint that writes does to the lines what its request means.

use mathlib.Core.Path.{subst}
use ai_inference_platform.Prelude.{
  sym, Option, ℕ, ◌-◌, ◌≡◌, refl, ◌&&◌, some, List, [], ◌∷◌, ◌++◌, arith, Text, take, select, find,
  update_where, ◌==◌, if◌then◌else◌, not, length, inl, inr, Bool-cases, ltb,
}
use ai_inference_platform.Conversations.{
  create_conversation, update_conversation, in_conversation, messages_of, new_message,
  owned_conversation, owned_message, save_message, update_message, delete_messages_from,
  delete_conversation, from_position,
}
use ai_inference_platform.Conversations.Positions.{
  delete, save, edit, delete_from, owned_same, owned_message-same,
}
use ai_inference_platform.Errors.{ok, Result-cases}
use ai_inference_platform.Ids.{UuidText, parse_uuid}
use ai_inference_platform.Models.{Db, Conversation, ChatMessage}
use ai_inference_platform.Session.{World}
use ai_inference_platform.CurrentUser.{CurrentUser}
use ai_inference_platform.Conversations.Messages.{
  IsOrdered, select-from_position, select-in_conversation,
}
use ai_inference_platform.Conversations.Views.{IsKeyed, lines, lines-append, CountsFrom-take}
use ai_inference_platform.Conversations.Edits.{lines-edited}
use ai_inference_platform.Conversations.Commands.{
  Command, idle, say, reword, cut, forget, act, meaning,
}

-- A request that leaves such messages acts as such a command.
abbrev pub Acts : (before after : List ChatMessage) → Command → Type 0
Acts before after command = (k : ℕ) → lines k after ≡ act command (λ id. lines id before) k

Acts-by :
    (before : List ChatMessage) (after after' : List ChatMessage) (command command' : Command)
    → after ≡ after'
    → command ≡ command'
    → Acts before after' command'
    → Acts before after command
Acts-by before after after' command command' e e' h k = rw (e, e') (h k)

pub Acts-idle :
    (before after : List ChatMessage) (command : Command)
    → after ≡ before
    → command ≡ idle
    → Acts before after command
Acts-idle before after command e e' k = rw (e, e') refl

lines-forgotten :
    (id conv : ℕ) (ms : List ChatMessage)
    → lines id (select (λ m. not (in_conversation conv m)) ms)
      ≡ (if id == conv then [] else lines id ms)
lines-forgotten id conv ms =
    rw (select-in_conversation id conv ms)
      (elim (Bool-cases (id == conv)) [ inl this ↦ rw this refl | inr other ↦ rw other refl ])

lines-cut :
    (id conv place : ℕ) (db : Db)
    → IsOrdered db
    → lines id (select (λ m. not (from_position conv place m)) db.messages)
      ≡ (if id == conv then take place (lines id db.messages) else lines id db.messages)
unfolding messages_of
lines-cut id conv place db h =
    let same : place - 0 ≡ place = omega arith in
    rw (select-from_position id conv place db.messages) (elim (Bool-cases (id == conv)) [
      | inl this ↦ rw this (
          rw same at
            (CountsFrom-take 0 place (select (in_conversation id) db.messages) (h.counts id)))
      | inr other ↦ rw other refl
    ])

found_id :
    (c x : ℕ) (ms : List ChatMessage) (msg : ChatMessage)
    → find (λ n. n.id == x && in_conversation c n) ms ≡ some msg
    → msg.id ≡ x
found_id c x [] msg found = absurd (ground (arith, found))
found_id c x (m ∷ ms) msg found = ground (arith, found_id c x ms msg)

pub owned_message-found :
    (m : UuidText) (conv : Conversation) (w : World) (msg : ChatMessage)
    → (owned_message m conv w).0 ≡ ok msg
    → find (λ n. n.id == msg.id && in_conversation conv.id n) w.db.messages ≡ some msg
unfolding owned_message
owned_message-found m conv w msg found = elim (Result-cases (parse_uuid m)) [
  | inl (e, failed) ↦ absurd (ground (arith, found, failed))
  | inr (x, parsed) ↦
      let it : find (λ n. n.id == x && in_conversation conv.id n) w.db.messages ≡ some msg =
        ground (arith, found, parsed) in
      subst (λ y. find (λ n. n.id == y && in_conversation conv.id n) w.db.messages ≡ some msg)
        (sym (found_id conv.id x w.db.messages msg it)) it
]

module _ (c : UuidText) (user : CurrentUser) (w : World) where
  pub Acts-create :
      (id now : ℕ) (title : Text) (model_name : Option Text)
      → Acts w.db.messages (create_conversation id now title model_name user w).1.db.messages idle
  unfolding create_conversation parse_uuid
  Acts-create id now title model_name = Acts-idle _ _ idle (ground arith) refl

  pub Acts-rename :
      (now : ℕ) (title : Text)
      → Acts w.db.messages (update_conversation now c title user w).1.db.messages idle
  unfolding update_conversation
  Acts-rename now title = Acts-idle _ _ idle (ground (arith, owned_same c user w)) refl

  pub Acts-save :
      (id now : ℕ) (role content : Text)
      → Acts w.db.messages
          (save_message id now c role content user w).1.db.messages
          (meaning user (save id now c role content) w)
  unfolding save_message
  Acts-save id now role content =
      let silent = owned_same c user w in
      elim (Result-cases (owned_conversation c user w).0) [
        | inl (e, failed) ↦ Acts-idle _ _ _ (ground (arith, failed, silent)) (rw failed refl)
        | inr (conv, owned) ↦ elim (Result-cases (parse_uuid user.user_id)) [
          | inl (e, failed) ↦
              Acts-idle _ _ _ (ground (arith, owned, failed, silent)) (rw (owned, failed) refl)
          | inr (user_id, parsed) ↦ elim (Bool-cases (ltb 20 (length role))) [
            | inl long ↦
                Acts-idle _ _ _ (ground (arith, owned, parsed, silent, long))
                  (rw (owned, parsed, long) refl)
            | inr fits ↦
                let place = length (messages_of conv.id w.db) in
                let msg = new_message id now conv.id user_id role content place in
                Acts-by w.db.messages _ (w.db.messages ++ msg ∷ []) _ (say conv.id role content)
                  (ground (arith, owned, parsed, silent, fits)) (rw (owned, parsed, fits) refl)
                  (λ k. lines-append k w.db.messages msg)
          ]
        ]
      ]

  pub Acts-delete :
      Acts w.db.messages (delete_conversation c user w).1.db.messages (meaning user (delete c) w)
  unfolding delete_conversation
  Acts-delete =
      let silent = owned_same c user w in
      elim (Result-cases (owned_conversation c user w).0) [
        | inl (e, failed) ↦ Acts-idle _ _ _ (ground (arith, failed, silent)) (rw failed refl)
        | inr (conv, owned) ↦
            Acts-by w.db.messages _ (select (λ m. not (in_conversation conv.id m)) w.db.messages) _
              (forget conv.id) (ground (arith, owned, silent)) (rw owned refl)
              (λ k. lines-forgotten k conv.id w.db.messages)
      ]

  module _ (h : IsOrdered w.db) (m : UuidText) (now : ℕ) where
    pub Acts-delete_from :
        Acts w.db.messages
          (delete_messages_from now c m user w).1.db.messages
          (meaning user (delete_from now c m) w)
    unfolding delete_messages_from
    Acts-delete_from =
        let silent = owned_same c user w in
        elim (Result-cases (owned_conversation c user w).0) [
          | inl (e, failed) ↦ Acts-idle _ _ _ (ground (arith, failed, silent)) (rw failed refl)
          | inr (conv, owned) ↦
              let silent' = owned_message-same m conv w in
              elim (Result-cases (owned_message m conv w).0) [
                | inl (e, failed) ↦
                    Acts-idle _ _ _ (ground (arith, owned, failed, silent, silent'))
                      (rw (owned, failed) refl)
                | inr (msg, found) ↦
                    Acts-by w.db.messages _
                      (select (λ n. not (from_position conv.id msg.position n)) w.db.messages) _
                      (cut conv.id msg.position) (ground (arith, owned, found, silent, silent'))
                      (rw (owned, found) refl) (λ k. lines-cut k conv.id msg.position w.db h)
              ]
        ]

    pub Acts-edit :
        (content : Text)
        → IsKeyed w.db.messages
        → Acts w.db.messages
            (update_message now c m content user w).1.db.messages
            (meaning user (edit now c m content) w)
    unfolding update_message
    Acts-edit content keyed =
        let silent = owned_same c user w in
        elim (Result-cases (owned_conversation c user w).0) [
          | inl (e, failed) ↦ Acts-idle _ _ _ (ground (arith, failed, silent)) (rw failed refl)
          | inr (conv, owned) ↦
              let silent' = owned_message-same m conv w in
              elim (Result-cases (owned_message m conv w).0) [
                | inl (e, failed) ↦
                    Acts-idle _ _ _ (ground (arith, owned, failed, silent, silent'))
                      (rw (owned, failed) refl)
                | inr (msg, found) ↦
                    Acts-by w.db.messages _
                      (update_where (λ n. n.id == msg.id) (λ n. record n { content = content })
                        w.db.messages)
                      _ (reword conv.id msg.position content)
                      (ground (arith, owned, found, silent, silent')) (rw (owned, found) refl)
                      (λ k.
                        lines-edited msg.id content k conv.id w.db.messages msg keyed
                          (owned_message-found m conv w msg found)
                          (unfold messages_of in h.counts conv.id))
              ]
        ]
