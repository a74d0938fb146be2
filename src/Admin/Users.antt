-- ===== src/Admin/Users.antt =====
-- backend/app/routers/admin/users.py
use ai_inference_platform.Prelude.{
  ℕ, Bool, true, false, not, ◌&&◌, ◌||◌, Option, none, some, is_some, List, [], ◌∷◌, map, Text,
  length, select, find, leb, ◌==◌, if◌then◌else◌,
}
use ai_inference_platform.Errors.{
  Result, ok, err, app_error, unhandled, validation, not_found, data_error, integrity_error,
}
use ai_inference_platform.Ids.{UuidText, parse_uuid, uuid_text_eq}
use ai_inference_platform.Models.{
  Db, User, Role, platform_admin, org_admin, custom, local, UsageLog, ApiKey, Conversation,
  ChatMessage,
}
use ai_inference_platform.Session.{
  Action, pure, lift, query, raise_if, or_raise, change, ◌>>=◌, ◌>>◌,
}
use ai_inference_platform.Auth.{Services, hash_password, user_by_email}
use ai_inference_platform.CurrentUser.{CurrentUser, require_role}
use ai_inference_platform.AuthRouter.{update_user as update_user_row}
use ai_inference_platform.AuthRouter.Register.{insert_user}
use ai_inference_platform.RefreshTokens.{any}
use ai_inference_platform.Admin.{is_platform_admin, org_scope, in_scope}

pub record UserCreate : Type 0 where
  pub org_id : UuidText
  pub name : Text
  pub email : Text
  pub password : Text
  pub role : Role

pub record UserUpdate : Type 0 where
  pub name : Option Text
  pub role : Option Role
  pub is_active : Option Bool

abbrev pub admins : List Role
admins = platform_admin ∷ org_admin ∷ []

-- The columns are of limited length; the roles with names of their own fit.
abbrev pub role_fits : Role → Bool
role_fits (custom t) = leb (length t) 20
role_fits _ = true

unfoldable pub fits : User → Bool
fits u = leb (length u.name) 100 && leb (length u.email) 255 && role_fits u.role

unfoldable pub list_users : CurrentUser → Action (List User)
list_users user = do
  require_role admins user
  scope ← lift (org_scope user)
  query (λ db. select (λ u. in_scope scope u.org_id) db.users)

-- `uuid.UUID(req.org_id)` with its `except` clause
abbrev pub or_invalid_org : Result ℕ → Result ℕ
or_invalid_org (ok id) = ok id
or_invalid_org (err e) = err (app_error validation "Invalid Organization ID format")

module _ (s : Services) where
  unfoldable pub new_user : (id org_id : ℕ) → (salt : Text) → UserCreate → User
  new_user id org_id salt req = record {
    id = id;
    org_id = org_id;
    name = req.name;
    email = req.email;
    password_hash = some (hash_password s salt req.password);
    google_id = none;
    profile_picture = none;
    auth_provider = local;
    role = req.role;
    is_active = true;
    is_verified = true;
    password_set = true;
    last_login_at = none;
  }

  unfoldable pub create_user : (id : ℕ) → (salt : Text) → UserCreate → CurrentUser → Action User
  create_user id salt req user = do
    require_role admins user
    raise_if (not (is_platform_admin user) && not (uuid_text_eq req.org_id user.org_id))
        (app_error validation "Org admins can only create users in their own org")
    org_id ← lift (or_invalid_org (parse_uuid req.org_id))
    existing ← query (user_by_email req.email)
    raise_if (is_some existing) (app_error validation "Email already in use")
    let row = new_user id org_id salt req
    raise_if (not (fits row)) (unhandled data_error)
    known ← query (λ db. any (λ o. o.id == org_id) db.orgs)
    raise_if (not known) (unhandled integrity_error)
    insert_user row
    pure row

-- The user of an id, among those in scope.
unfoldable pub user_in_scope : (id : ℕ) → Option ℕ → Db → Option User
user_in_scope id scope db = find (λ u. u.id == id && in_scope scope u.org_id) db.users

abbrev pub given : {A : Type 0} → Option A → A → A
given none a = a
given (some b) a = b

-- The fields that the request has.
unfoldable pub apply_update : UserUpdate → User → User
apply_update req u = record u {
  name = given req.name u.name;
  role = given req.role u.role;
  is_active = given req.is_active u.is_active;
}

unfoldable pub target_user : (user_id : UuidText) → CurrentUser → Action User
target_user user_id user = do
  require_role admins user
  id ← lift (parse_uuid user_id)
  scope ← lift (org_scope user)
  found ← query (user_in_scope id scope)
  or_raise found (app_error not_found "User not found")

unfoldable pub update_user : (user_id : UuidText) → UserUpdate → CurrentUser → Action User
update_user user_id req user = do
  target ← target_user user_id user
  raise_if (not (fits (apply_update req target))) (unhandled data_error)
  change (update_user_row target.id (apply_update req))
  pure (apply_update req target)

abbrev pub is_user : ℕ → Option ℕ → Bool
is_user id none = false
is_user id (some user_id) = user_id == id

abbrev pub is_key_in : List ApiKey → Option ℕ → Bool
is_key_in keys none = false
is_key_in keys (some key_id) = any (λ k. k.id == key_id) keys

-- The log without its references to a user and to the user's keys.
unfoldable pub forget : (id : ℕ) → (keys : List ApiKey) → UsageLog → UsageLog
forget id keys l = record l {
  user_id = if is_user id l.user_id then none else l.user_id;
  api_key_id = if is_key_in keys l.api_key_id then none else l.api_key_id;
}

abbrev pub created_by : ℕ → ApiKey → Bool
created_by id k = k.created_by_user_id == id

-- The conversations of the user go by the cascade of their foreign key, and so do the messages of
-- the user and those in these conversations.
unfoldable pub is_message_of : (id : ℕ) → List Conversation → ChatMessage → Bool
is_message_of id conversations m =
    m.user_id == id || any (λ c. c.id == m.conversation_id && c.user_id == id) conversations

unfoldable pub without_user : (id : ℕ) → Db → Db
without_user id db = record db {
  users = select (λ u. not (u.id == id)) db.users;
  api_keys = select (λ k. not (created_by id k)) db.api_keys;
  usage_logs = map (forget id (select (created_by id) db.api_keys)) db.usage_logs;
  conversations = select (λ c. not (c.user_id == id)) db.conversations;
  messages = select (λ m. not (is_message_of id db.conversations m)) db.messages;
}

unfoldable pub delete_user : (user_id : UuidText) → CurrentUser → Action (Unit {0})
delete_user user_id user = do target ← target_user user_id user; change (without_user target.id)
