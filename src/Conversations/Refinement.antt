-- ===== src/Conversations/Refinement.antt =====
-- The endpoints against a plain description: whatever requests are made, a conversation is shown as
-- their meanings leave it.
use mathlib.Core.Path.{fun_ext}
use ai_inference_platform.Prelude.{
  sym, ℕ, suc, ◌≡◌, refl, ap, ◌∙◌, List, [], ◌∷◌, map, arith, inl, inr, true, leb, sym,
}
use ai_inference_platform.Errors.{ok, Result-cases}
use ai_inference_platform.Ids.{UuidText, malformed}
use ai_inference_platform.Models.{Conversation, ChatMessage}
use ai_inference_platform.Conversations.{
  get_conversation, by_position, insert_position, messages_of, owned_conversation,
}
use ai_inference_platform.Conversations.Messages.{CountsFrom, IsOrdered}
use ai_inference_platform.Conversations.Positions.{
  perform_all, perform_all-IsOrdered, owned_same, Request, create, rename, delete, save, edit,
  delete_from, perform,
}
use ai_inference_platform.Conversations.Views.{line, IsKeyed}
use ai_inference_platform.Conversations.Squares.{
  Acts-create, Acts-rename, Acts, Acts-save, Acts-delete, Acts-delete_from, Acts-edit,
}
use ai_inference_platform.Session.{World}
use ai_inference_platform.CurrentUser.{CurrentUser}
use ai_inference_platform.Conversations.Commands.{Chats, Command, act, view, meaning}

perform-Acts :
    (user : CurrentUser) (r : Request) (w : World)
    → IsOrdered w.db
    → IsKeyed w.db.messages
    → Acts w.db.messages (perform user r w).db.messages (meaning user r w)
unfolding perform
perform-Acts user (create id now title model_name) w h keyed =
    Acts-create (malformed []) user w id now title model_name
perform-Acts user (rename now c title) w h keyed = Acts-rename c user w now title
perform-Acts user (delete c) w h keyed = Acts-delete c user w
perform-Acts user (save id now c role content) w h keyed = Acts-save c user w id now role content
perform-Acts user (edit now c m content) w h keyed = Acts-edit c user w h m now content keyed
perform-Acts user (delete_from now c m) w h keyed = Acts-delete_from c user w h m now

-- What the requests mean, each in the world that it meets.
abbrev pub commands : List (CurrentUser × Request) → World → List Command
commands [] w = []
commands ((user, r) ∷ rest) w = meaning user r w ∷ commands rest (perform user r w)

abbrev pub replay : List Command → Chats → Chats
replay [] v = v
replay (command ∷ rest) v = replay rest (act command v)

-- The ids of the messages stay those of a primary key: a new one is drawn anew.
abbrev pub StaysKeyed : List (CurrentUser × Request) → World → Type 0
StaysKeyed [] w = Unit
StaysKeyed ((user, r) ∷ rest) w = IsKeyed w.db.messages × StaysKeyed rest (perform user r w)

perform-IsOrdered :
    (user : CurrentUser) (r : Request) (w : World)
    → IsOrdered w.db
    → IsOrdered (perform user r w).db
unfolding perform_all
perform-IsOrdered user r w h = perform_all-IsOrdered ((user, r) ∷ []) w h

view-replay :
    (requests : List (CurrentUser × Request)) (w : World)
    → IsOrdered w.db
    → StaysKeyed requests w
    → view (perform_all requests w).db ≡ replay (commands requests w) (view w.db)
unfolding perform_all
view-replay [] w h keyed = refl
view-replay ((user, r) ∷ rest) w h (now, keyed) =
    let w' = perform user r w in
    view-replay rest w' (perform-IsOrdered user r w h) keyed
    ∙ ap (replay (commands rest w')) (fun_ext (perform-Acts user r w h now))

by_position-CountsFrom : (n : ℕ) (ms : List ChatMessage) → CountsFrom n ms → by_position ms ≡ ms
unfolding by_position insert_position
by_position-CountsFrom n [] h = refl
by_position-CountsFrom n (m ∷ []) h = refl
by_position-CountsFrom n (m ∷ k ∷ ms) (at, h) =
    let rest = by_position-CountsFrom (suc n) (k ∷ ms) h in
    let next : leb m.position k.position ≡ true = ground (arith, at, h) in
    ap (insert_position m) rest ∙ rw next refl

shown-lines :
    (c : UuidText) (user : CurrentUser) (w : World) (conv : Conversation) (ms : List ChatMessage)
    → IsOrdered w.db
    → (get_conversation c user w).0 ≡ ok (conv, ms)
    → map line ms ≡ view w.db conv.id
unfolding get_conversation messages_of
shown-lines c user w conv ms h got =
    let silent = owned_same c user w in
    elim (Result-cases (owned_conversation c user w).0) [
      | inl (e, failed) ↦ absurd (ground (arith, got, failed))
      | inr (conv', owned) ↦
          let ms' = messages_of conv'.id w.db in
          let same_conv : conv' ≡ conv = ground (arith, got, owned, silent) in
          let shown : by_position ms' ≡ ms = ground (arith, got, owned, silent) in
          let ordered = by_position-CountsFrom 0 ms' (h.counts conv'.id) in
          ap (map line) (sym shown ∙ ordered) ∙ ap (λ k. view w.db k.id) same_conv
    ]

-- Whatever requests are made by whatever users, valid or not: a conversation that is shown
-- afterwards has the lines that the meanings of the requests leave of the conversations before, where
-- the messages were numbered in order and no id of a message is drawn twice.
pub perform_all-refines :
    (requests : List (CurrentUser × Request)) (w : World) (c : UuidText) (user : CurrentUser)
    (conv : Conversation) (ms : List ChatMessage)
    → IsOrdered w.db
    → StaysKeyed requests w
    → (get_conversation c user (perform_all requests w)).0 ≡ ok (conv, ms)
    → map line ms ≡ replay (commands requests w) (view w.db) conv.id
perform_all-refines requests w c user conv ms h keyed got =
    shown-lines c user (perform_all requests w) conv ms (perform_all-IsOrdered requests w h) got
    ∙ ap (λ v. v conv.id) (view-replay requests w h keyed)
