-- ===== src/Conversations/Ownership.antt =====
-- Who may read and write a conversation.
use ai_inference_platform.Prelude.{
  ℕ, ◌≡◌, ◌≢◌, refl, Bool, true, false, not, some, List, [], ◌∷◌, ◌++◌, arith, Text, select,
  select-append, find, update_where, ◌==◌, Bool-cases, inl, inr, All, Option, length, sym, ap, ◌∙◌,
  ◌||◌, none,
}
use mathlib.Core.List.{append-nil}
use ai_inference_platform.Errors.{ok, err, app_error, forbidden, Result-cases}
use ai_inference_platform.Ids.{UuidText, parse_uuid}
use ai_inference_platform.Models.{Conversation, ChatMessage}
use ai_inference_platform.Session.{World}
use ai_inference_platform.CurrentUser.{CurrentUser}
use ai_inference_platform.Conversations.{
  conversation_by_id, owned_conversation, owned_message, get_conversation, create_conversation,
  save_message, update_message, delete_messages_from, update_conversation, delete_conversation,
  messages_of, in_conversation, from_position, new_message, new_conversation, new_title,
  is_too_long, is_any_too_long,
}
use ai_inference_platform.Conversations.Messages.{select-from_position, select-in_conversation}
use ai_inference_platform.Conversations.Views.{IsKeyed, found_only}
use ai_inference_platform.Conversations.Squares.{owned_message-found}
use ai_inference_platform.Conversations.Positions.{
  Request, create, rename, delete, save, edit, delete_from, perform, owned_same, owned_message-same,
}

module _ (user : CurrentUser) (c : UuidText) (id uid : ℕ) (conv : Conversation) (w : World)
    (named : parse_uuid c ≡ ok id) (self : parse_uuid user.user_id ≡ ok uid)
    (found : conversation_by_id id w.db ≡ some conv) (foreign : conv.user_id ≢ uid) where
  refused :
      owned_conversation c user w
      ≡ (err (app_error forbidden "You do not have access to this conversation"), w)
  unfolding owned_conversation
  refused = ground (arith, named, self, found)

  -- A user reads no conversation of another user.
  foreign_read :
      get_conversation c user w
      ≡ (err (app_error forbidden "You do not have access to this conversation"), w)
  unfolding get_conversation
  foreign_read = ground (arith, refused)

-- The row of a conversation is as it was found.
find-append :
    (p : Conversation → Bool) (cs : List Conversation) (new conv : Conversation)
    → find p cs ≡ some conv
    → find p (cs ++ new ∷ []) ≡ some conv
find-append p [] new conv found = absurd (ground (arith, found))
find-append p (d ∷ cs) new conv found = ground (arith, found, find-append p cs new conv)

find-update :
    (id k : ℕ) (f : Conversation → Conversation) (cs : List Conversation) (conv : Conversation)
    → ((d : Conversation) → (f d).id ≡ d.id)
    → (id == k) ≡ false
    → find (λ d. d.id == id) cs ≡ some conv
    → find (λ d. d.id == id) (update_where (λ d. d.id == k) f cs) ≡ some conv
find-update id k f [] conv keeps apart found = absurd (ground (arith, found))
find-update id k f (d ∷ cs) conv keeps apart found =
    ground (arith, found, apart, keeps d, find-update id k f cs conv keeps apart)

find-select :
    (id k : ℕ) (cs : List Conversation) (conv : Conversation)
    → (id == k) ≡ false
    → find (λ d. d.id == id) cs ≡ some conv
    → find (λ d. d.id == id) (select (λ d. not (d.id == k)) cs) ≡ some conv
find-select id k [] conv apart found = absurd (ground (arith, found))
find-select id k (d ∷ cs) conv apart found =
    ground (arith, found, apart, find-select id k cs conv apart)

-- The messages of a conversation are as they were.
select-reworded :
    (id k x : ℕ) (content : Text) (ms : List ChatMessage)
    → (id == k) ≡ false
    → All (λ m. m.id ≡ x → in_conversation k m ≡ true) ms
    → select
        (in_conversation id)
        (update_where (λ m. m.id == x) (λ m. record m { content = content }) ms)
      ≡ select (in_conversation id) ms
select-reworded id k x content [] apart h = refl
select-reworded id k x content (m ∷ ms) apart (only, h) =
    let rest = select-reworded id k x content ms apart h in
    elim (Bool-cases (m.id == x)) [
      | inl this ↦
          let its = only (ground arith) in
          let not_here : in_conversation id m ≡ false = ground arith in rw (this, not_here) rest
      | inr other ↦ elim (Bool-cases (in_conversation id m)) [
        | inl here ↦ rw (other, here, rest) refl
        | inr there ↦ rw (other, there) rest
      ]
    ]

abbrev owner : Option Conversation → ℕ
owner none = 0
owner (some c) = c.user_id

find_id :
    (k : ℕ) (cs : List Conversation) (conv : Conversation)
    → find (λ d. d.id == k) cs ≡ some conv
    → conv.id ≡ k
find_id k [] conv found = absurd (ground (arith, found))
find_id k (d ∷ cs) conv found = ground (arith, found, find_id k cs conv)

module _ (user : CurrentUser) (id uid : ℕ) (conv : Conversation) (w : World)
    (self : parse_uuid user.user_id ≡ ok uid) (found : conversation_by_id id w.db ≡ some conv)
    (foreign : conv.user_id ≢ uid) where
  -- The conversation is there, and has the messages that it had.
  abbrev IsUntouched : World → Type 0
  IsUntouched w' =
      (conversation_by_id id w'.db ≡ some conv) × (messages_of id w'.db ≡ messages_of id w.db)

  IsUntouched-same : (w' : World) → w' ≡ w → IsUntouched w'
  IsUntouched-same w' e = rw e (found, refl)

  -- What a user owns is another conversation.
  owned_apart :
      (c : UuidText) (own : Conversation)
      → (owned_conversation c user w).0 ≡ ok own
      → (id == own.id) ≡ false
  unfolding owned_conversation conversation_by_id
  owned_apart c own owned = elim (Result-cases (parse_uuid c)) [
    | inl (e, failed) ↦ absurd (ground (arith, owned, failed))
    | inr (k, named) ↦
        let got : find (λ d. d.id == k) w.db.conversations ≡ some own =
          ground (arith, owned, named, self) in
        let its : own.user_id ≡ uid = ground (arith, owned, named, self) in
        let this = find_id k w.db.conversations own got in
        elim (Bool-cases (id == own.id)) [
          | inr apart ↦ apart
          | inl same ↦
              let same' : k ≡ id = ground arith in
              let twice : some own ≡ some conv = sym got ∙ (rw same' found) in
              absurd (foreign (ap owner (sym twice) ∙ its))
        ]
  ]

  IsUntouched-update :
      (k : ℕ) (f : Conversation → Conversation) (ms : List ChatMessage) (w' : World)
      → ((d : Conversation) → (f d).id ≡ d.id)
      → (id == k) ≡ false
      → select (in_conversation id) ms ≡ select (in_conversation id) w.db.messages
      → w'.db ≡ record w.db {
        conversations = update_where (λ d. d.id == k) f w.db.conversations;
        messages = ms;
      }
      → IsUntouched w'
  unfolding conversation_by_id messages_of
  IsUntouched-update k f ms w' keeps apart kept e =
      rw e (find-update id k f w.db.conversations conv keeps apart found, kept)

  IsUntouched-select :
      (k : ℕ) (w' : World)
      → (id == k) ≡ false
      → w'.db ≡ record w.db {
        conversations = select (λ d. not (d.id == k)) w.db.conversations;
        messages = select (λ m. not (in_conversation k m)) w.db.messages;
      }
      → IsUntouched w'
  unfolding conversation_by_id messages_of
  IsUntouched-select k w' apart e = rw e (
    find-select id k w.db.conversations conv apart found,
    select-in_conversation id k w.db.messages ∙ rw apart refl,
  )

  IsUntouched-create :
      (id' now : ℕ) (title : Text) (model_name : Option Text)
      → IsUntouched (create_conversation id' now title model_name user w).1
  unfolding create_conversation conversation_by_id messages_of
  IsUntouched-create id' now title model_name =
      elim (Bool-cases (is_too_long 200 title || is_any_too_long 100 model_name)) [
        | inl long ↦
            IsUntouched-same (create_conversation id' now title model_name user w).1
              (ground (arith, self, long))
        | inr fits ↦
            rw (self, fits)
              (
                find-append (λ d. d.id == id) w.db.conversations
                    (new_conversation id' now uid title model_name) conv found,
                refl,
              )
      ]

  IsUntouched-rename :
      (now : ℕ) (c : UuidText) (title : Text)
      → IsUntouched (update_conversation now c title user w).1
  unfolding update_conversation
  IsUntouched-rename now c title =
      let silent = owned_same c user w in
      elim (Result-cases (owned_conversation c user w).0) [
        | inl (e, failed) ↦
            IsUntouched-same (update_conversation now c title user w).1
              (ground (arith, failed, silent))
        | inr (own, owned) ↦ elim (Bool-cases (is_too_long 200 title)) [
          | inl long ↦
              IsUntouched-same (update_conversation now c title user w).1
                (ground (arith, owned, silent, long))
          | inr fits ↦
              IsUntouched-update own.id (λ d. record d { title = title; updated_at = now })
                w.db.messages (update_conversation now c title user w).1 (λ d. refl)
                (owned_apart c own owned) refl (ground (arith, owned, silent, fits))
        ]
      ]

  IsUntouched-save :
      (id' now : ℕ) (c : UuidText) (role content : Text)
      → IsUntouched (save_message id' now c role content user w).1
  unfolding save_message
  IsUntouched-save id' now c role content =
      let silent = owned_same c user w in
      elim (Result-cases (owned_conversation c user w).0) [
        | inl (e, failed) ↦
            IsUntouched-same (save_message id' now c role content user w).1
              (ground (arith, failed, silent))
        | inr (own, owned) ↦ elim (Bool-cases (is_too_long 20 role)) [
          | inl long ↦
              IsUntouched-same (save_message id' now c role content user w).1
                (ground (arith, owned, silent, self, long))
          | inr fits ↦
              let apart = owned_apart c own owned in
              let place = length (messages_of own.id w.db) in
              let msg = new_message id' now own.id uid role content place in
              let other : (own.id == id) ≡ false = ground arith in
              let kept : select (in_conversation id) (w.db.messages ++ msg ∷ [])
                  ≡ select (in_conversation id) w.db.messages =
                select-append (in_conversation id) w.db.messages (msg ∷ [])
                ∙ rw other (append-nil (select (in_conversation id) w.db.messages)) in
              IsUntouched-update own.id
                (λ d. record d { title = new_title role content place d.title; updated_at = now })
                (w.db.messages ++ msg ∷ []) (save_message id' now c role content user w).1
                (λ d. refl) apart kept (ground (arith, owned, silent, self, fits))
        ]
      ]

  IsUntouched-edit :
      (now : ℕ) (c m : UuidText) (content : Text)
      → IsKeyed w.db.messages
      → IsUntouched (update_message now c m content user w).1
  unfolding update_message
  IsUntouched-edit now c m content keyed =
      let silent = owned_same c user w in
      elim (Result-cases (owned_conversation c user w).0) [
        | inl (e, failed) ↦
            IsUntouched-same (update_message now c m content user w).1
              (ground (arith, failed, silent))
        | inr (own, owned) ↦
            let silent' = owned_message-same m own w in
            elim (Result-cases (owned_message m own w).0) [
              | inl (e, failed) ↦
                  IsUntouched-same (update_message now c m content user w).1
                    (ground (arith, owned, failed, silent, silent'))
              | inr (msg, got) ↦
                  let apart = owned_apart c own owned in
                  let only =
                    found_only own.id msg.id w.db.messages msg keyed
                      (owned_message-found m own w msg got) in
                  IsUntouched-update own.id (λ d. record d { updated_at = now })
                    (update_where (λ n. n.id == msg.id) (λ n. record n { content = content })
                      w.db.messages)
                    (update_message now c m content user w).1 (λ d. refl) apart
                    (select-reworded id own.id msg.id content w.db.messages apart only)
                    (ground (arith, owned, got, silent, silent'))
            ]
      ]

  IsUntouched-delete_from :
      (now : ℕ) (c m : UuidText) → IsUntouched (delete_messages_from now c m user w).1
  unfolding delete_messages_from
  IsUntouched-delete_from now c m =
      let silent = owned_same c user w in
      elim (Result-cases (owned_conversation c user w).0) [
        | inl (e, failed) ↦
            IsUntouched-same (delete_messages_from now c m user w).1
              (ground (arith, failed, silent))
        | inr (own, owned) ↦
            let silent' = owned_message-same m own w in
            elim (Result-cases (owned_message m own w).0) [
              | inl (e, failed) ↦
                  IsUntouched-same (delete_messages_from now c m user w).1
                    (ground (arith, owned, failed, silent, silent'))
              | inr (msg, got) ↦
                  let apart = owned_apart c own owned in
                  IsUntouched-update own.id (λ d. record d { updated_at = now })
                    (select (λ n. not (from_position own.id msg.position n)) w.db.messages)
                    (delete_messages_from now c m user w).1 (λ d. refl) apart
                    (select-from_position id own.id msg.position w.db.messages ∙ rw apart refl)
                    (ground (arith, owned, got, silent, silent'))
            ]
      ]

  IsUntouched-delete : (c : UuidText) → IsUntouched (delete_conversation c user w).1
  unfolding delete_conversation
  IsUntouched-delete c =
      let silent = owned_same c user w in
      elim (Result-cases (owned_conversation c user w).0) [
        | inl (e, failed) ↦
            IsUntouched-same (delete_conversation c user w).1 (ground (arith, failed, silent))
        | inr (own, owned) ↦
            let apart = owned_apart c own owned in
            IsUntouched-select own.id (delete_conversation c user w).1 apart
              (ground (arith, owned, silent))
      ]

  -- Whatever a user requests, and whatever conversation and message the request names, a
  -- conversation of another user stays as it is, with the messages that it has, where no two
  -- messages have the same id.
  pub foreign_write :
      (r : Request)
      → IsKeyed w.db.messages
      → (conversation_by_id id (perform user r w).db ≡ some conv)
        × (messages_of id (perform user r w).db ≡ messages_of id w.db)
  unfolding perform
  foreign_write (create id' now title model_name) keyed =
      IsUntouched-create id' now title model_name
  foreign_write (rename now c title) keyed = IsUntouched-rename now c title
  foreign_write (delete c) keyed = IsUntouched-delete c
  foreign_write (save id' now c role content) keyed = IsUntouched-save id' now c role content
  foreign_write (edit now c m content) keyed = IsUntouched-edit now c m content keyed
  foreign_write (delete_from now c m) keyed = IsUntouched-delete_from now c m
