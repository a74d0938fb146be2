-- ===== src/Admin/Removal.antt =====
-- What is left of a user who has been deleted.
use ai_inference_platform.Prelude.{
  ℕ, ◌≡◌, refl, Bool, false, not, List, [], ◌∷◌, arith, map, select, find, length, All, some, ◌&&◌,
  ◌==◌, inl, inr, ◌||◌,
}
use ai_inference_platform.Errors.{ok, Result-cases}
use ai_inference_platform.Ids.{UuidText, parse_uuid}
use ai_inference_platform.Models.{User, ApiKey, UsageLog, Conversation, ChatMessage}
use ai_inference_platform.Session.{World}
use ai_inference_platform.RefreshTokens.{any}
use ai_inference_platform.CurrentUser.{CurrentUser, require_role}
use ai_inference_platform.Admin.{org_scope, in_scope}
use ai_inference_platform.Admin.Users.{
  delete_user, target_user, user_in_scope, without_user, created_by, forget, is_user, is_key_in,
  is_message_of,
}

select-rejected :
    {A : Type 0} (p : A → Bool) (xs : List A) → select p (select (λ x. not (p x)) xs) ≡ []
select-rejected p [] = refl
select-rejected p (x ∷ xs) = ground (arith, select-rejected p xs)

-- No log refers to the user or to one of the keys.
abbrev pub IsForgotten : ℕ → List ApiKey → UsageLog → Type 0
IsForgotten id keys l = (is_user id l.user_id ≡ false) × (is_key_in keys l.api_key_id ≡ false)

IsForgotten-forget :
    (id : ℕ) (keys : List ApiKey) (l : UsageLog) → IsForgotten id keys (forget id keys l)
unfolding forget
IsForgotten-forget id keys l = (ground arith, ground arith)

All-forget :
    (id : ℕ) (keys : List ApiKey) (ls : List UsageLog)
    → All (IsForgotten id keys) (map (forget id keys) ls)
All-forget id keys [] = tt
All-forget id keys (l ∷ ls) = (IsForgotten-forget id keys l, All-forget id keys ls)

length-forget :
    (id : ℕ) (keys : List ApiKey) (ls : List UsageLog)
    → length (map (forget id keys) ls) ≡ length ls
length-forget id keys [] = refl
length-forget id keys (l ∷ ls) = ground (arith, length-forget id keys ls)

find_id :
    (id : ℕ) (q : User → Bool) (us : List User) (t : User)
    → find (λ u. u.id == id && q u) us ≡ some t
    → t.id ≡ id
find_id id q [] t found = cc
find_id id q (u ∷ us) t found = ground (arith, find_id id q us t)

target_user-id :
    (admin : CurrentUser) (id : ℕ) (user_id : UuidText) (w : World) (t : User)
    → parse_uuid user_id ≡ ok id
    → (target_user user_id admin w).0 ≡ ok t
    → (t.id ≡ id) × ((target_user user_id admin w).1 ≡ w)
unfolding target_user require_role user_in_scope
target_user-id admin id user_id w t parsed got = elim (Result-cases (org_scope admin)) [
  | inl (e, failed) ↦ (ground (arith, parsed, got, failed), ground (arith, parsed, got, failed))
  | inr (scope, scoped) ↦ (
    ground (arith, parsed, got, scoped, find_id id (λ u. in_scope scope u.org_id) w.db.users t),
    ground (arith, parsed, got, scoped),
  )
]

-- The message is in a conversation of the user.
abbrev pub is_in_one_of : ℕ → List Conversation → ChatMessage → Bool
is_in_one_of id conversations m =
    any (λ c. c.id == m.conversation_id && c.user_id == id) conversations

-- After a user has been deleted there is no user of the id, no key that the user created, no
-- conversation and no message of the user, and no message in a conversation that the user had; every
-- usage log is still there, without a reference to the user or to one of these keys.
pub delete_user_leaves_no_reference :
    (admin : CurrentUser) (id : ℕ) (user_id : UuidText) (w : World)
    → parse_uuid user_id ≡ ok id
    → (delete_user user_id admin w).0 ≡ ok tt
    → let db = (delete_user user_id admin w).1.db in
      (select (λ u. u.id == id) db.users ≡ [])
      × (select (created_by id) db.api_keys ≡ [])
      × (select (λ c. c.user_id == id) db.conversations ≡ [])
      × (select (λ m. m.user_id == id || is_in_one_of id w.db.conversations m) db.messages ≡ [])
      × All (IsForgotten id (select (created_by id) w.db.api_keys)) db.usage_logs
      × (length db.usage_logs ≡ length w.db.usage_logs)
unfolding delete_user target_user
delete_user_leaves_no_reference admin id user_id w parsed done =
    elim (Result-cases (target_user user_id admin w).0) [
      | inl (e, failed) ↦ absurd (ground (arith, failed, done))
      | inr (t, got) ↦
          let (this, same) = target_user-id admin id user_id w t parsed got in
          rw (got, same, this)
            (unfold without_user is_message_of in
              (
                select-rejected (λ u. u.id == id) w.db.users,
                select-rejected (created_by id) w.db.api_keys,
                select-rejected (λ c. c.user_id == id) w.db.conversations,
                select-rejected (λ m. m.user_id == id || is_in_one_of id w.db.conversations m)
                    w.db.messages,
                All-forget id (select (created_by id) w.db.api_keys) w.db.usage_logs,
                length-forget id (select (created_by id) w.db.api_keys) w.db.usage_logs,
              ))
    ]
