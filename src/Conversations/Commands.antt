-- ===== src/Conversations/Commands.antt =====
-- What a request means for the conversations: a plain description, in which a conversation is a list
-- of lines, to which a line is added, in which a line is reworded, and which is cut off at a line.

use ai_inference_platform.Prelude.{ℕ, [], ◌∷◌, ◌++◌, Text, take, length, ltb, ◌==◌, if◌then◌else◌}
use ai_inference_platform.Errors.{Result, ok, err}
use ai_inference_platform.Ids.{parse_uuid}
use ai_inference_platform.Models.{Db}
use ai_inference_platform.Session.{World}
use ai_inference_platform.CurrentUser.{CurrentUser}
use ai_inference_platform.Conversations.{owned_conversation, owned_message}
use ai_inference_platform.Conversations.Positions.{
  Request, create, rename, delete, save, edit, delete_from,
}
use ai_inference_platform.Conversations.Views.{Chat, lines, reword_at}

-- The conversations by their ids, and what can happen to them.
abbrev pub Chats : Type 0
Chats = ℕ → Chat

pub data Command : Type 0 where
  idle : Command
  say : (id : ℕ) → (role content : Text) → Command
  reword : (id place : ℕ) → (content : Text) → Command
  cut : (id place : ℕ) → Command
  forget : (id : ℕ) → Command

abbrev pub act : Command → Chats → Chats
act idle v id = v id
act (say conv role content) v id = if id == conv then v id ++ (role, content) ∷ [] else v id
act (reword conv place content) v id = if id == conv then reword_at 0 place content (v id) else v id
act (cut conv place) v id = if id == conv then take place (v id) else v id
act (forget conv) v id = if id == conv then [] else v id

abbrev pub view : Db → Chats
view db id = lines id db.messages

abbrev pub on_ok : {A : Type 0} → Result A → (A → Command) → Command
on_ok (err e) f = idle
on_ok (ok a) f = f a

-- What a request is to do: nothing, unless its user owns the conversation, the message is there and
-- the role of a new message has at most twenty characters.
abbrev pub meaning : CurrentUser → Request → World → Command
meaning user (create id now title model_name) w = idle
meaning user (rename now c title) w = idle
meaning user (delete c) w = on_ok (owned_conversation c user w).0 (λ conv. forget conv.id)
meaning user (save id now c role content) w = on_ok (owned_conversation c user w).0 (λ conv.
    on_ok (parse_uuid user.user_id)
      (λ user_id. if ltb 20 (length role) then idle else say conv.id role content))
meaning user (edit now c m content) w =
    on_ok (owned_conversation c user w).0
      (λ conv. on_ok (owned_message m conv w).0 (λ msg. reword conv.id msg.position content))
meaning user (delete_from now c m) w =
    on_ok (owned_conversation c user w).0
      (λ conv. on_ok (owned_message m conv w).0 (λ msg. cut conv.id msg.position))
