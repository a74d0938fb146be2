-- ===== src/Admin/Keys.antt =====
-- backend/app/routers/admin/api_keys.py
pub mod Use
use ai_inference_platform.Prelude.{
  ℕ, Bool, true, false, not, ◌&&◌, ◌||◌, Option, none, some, is_some, List, [], ◌∷◌, ◌++◌, map,
  Text, length, select, find, ltb, leb, ◌==◌, if◌then◌else◌, text_eq,
}
use ai_inference_platform.Errors.{
  Result, ok, err, app_error, unhandled, not_found, data_error, integrity_error,
}
use ai_inference_platform.Ids.{UuidText, parse_uuid}
use ai_inference_platform.Models.{
  Db, Role, platform_admin, org_admin, operator, role_eq, UsageLog, ApiKey,
}
use ai_inference_platform.Session.{
  Action, pure, lift, query, raise_if, or_raise, change, ◌>>=◌, ◌>>◌,
}
use ai_inference_platform.Auth.{Services}
use ai_inference_platform.ApiKeys.{generate_api_key, update_key}
use ai_inference_platform.CurrentUser.{CurrentUser, require_role}
use ai_inference_platform.RefreshTokens.{any}
use ai_inference_platform.Admin.{org_scope, in_scope}
use ai_inference_platform.Admin.Users.{is_user}

abbrev pub key_roles : List Role
key_roles = platform_admin ∷ org_admin ∷ operator ∷ []

-- The creator that a query is narrowed to: an operator sees the keys of its own.
unfoldable pub creator_scope : CurrentUser → Result (Option ℕ)
creator_scope user =
    if role_eq user.role operator
    then elim (parse_uuid user.user_id) [ ok id ↦ ok (some id) | err e ↦ err e ]
    else ok none

unfoldable pub is_visible : (org creator : Option ℕ) → ApiKey → Bool
is_visible org creator k = in_scope org k.org_id && in_scope creator k.created_by_user_id

-- A row in its place by the time of its creation, the newest first.
unfoldable pub insert_newest_key : ApiKey → List ApiKey → List ApiKey
insert_newest_key k [] = k ∷ []
insert_newest_key k (l ∷ ls) =
    let rest = insert_newest_key k ls in
    if ltb l.created_at k.created_at then k ∷ l ∷ ls else l ∷ rest

unfoldable pub newest_keys_first : List ApiKey → List ApiKey
unfolding insert_newest_key
newest_keys_first [] = []
newest_keys_first (k ∷ ks) = insert_newest_key k (newest_keys_first ks)

unfoldable pub list_api_keys : CurrentUser → Action (List ApiKey)
list_api_keys user = do
  require_role key_roles user
  org ← lift (org_scope user)
  creator ← lift (creator_scope user)
  query (λ db. newest_keys_first (select (is_visible org creator) db.api_keys))

-- `db.add(key)` and `db.flush()`: hashes are unique, the name fits its column, and the organization
-- and the user exist.
unfoldable pub insert_key : ApiKey → Action (Unit {0})
insert_key key = do
  raise_if (ltb 100 (length key.name)) (unhandled data_error)
  clash ← query (λ db. is_some (find (λ k. text_eq k.key_hash key.key_hash) db.api_keys))
  raise_if clash (unhandled integrity_error)
  known ← query (λ db.
      any (λ o. o.id == key.org_id) db.orgs && any (λ u. u.id == key.created_by_user_id) db.users)
  raise_if (not known) (unhandled integrity_error)
  change (λ db. record db { api_keys = db.api_keys ++ key ∷ [] })

unfoldable pub visible_key : (key_id : UuidText) → CurrentUser → Action ApiKey
visible_key key_id user = do
  require_role key_roles user
  id ← lift (parse_uuid key_id)
  org ← lift (org_scope user)
  creator ← lift (creator_scope user)
  found ← query (λ db. find (λ k. k.id == id && is_visible org creator k) db.api_keys)
  or_raise found (app_error not_found "API key not found")

module _ (s : Services) where
  unfoldable pub new_key : (id now org_id user_id : ℕ) → (hex name : Text) → ApiKey
  new_key id now org_id user_id hex name = record {
    id = id;
    org_id = org_id;
    created_by_user_id = user_id;
    name = name;
    key_hash = (generate_api_key s hex).1;
    key_prefix = (generate_api_key s hex).2;
    is_active = true;
    expires_at = none;
    last_used_at = none;
    created_at = now;
  }

  -- The answer is the row and the key in plain text.
  unfoldable pub create_api_key :
      (id now : ℕ) → (hex name : Text) → CurrentUser → Action (ApiKey × Text)
  create_api_key id now hex name user = do
    require_role key_roles user
    org_id ← lift (parse_uuid user.org_id)
    user_id ← lift (parse_uuid user.user_id)
    let key = new_key id now org_id user_id hex name
    insert_key key
    pure (key, (generate_api_key s hex).0)

  abbrev pub renewed : (hex : Text) → ApiKey → ApiKey
  renewed hex k = record k {
    key_hash = (generate_api_key s hex).1;
    key_prefix = (generate_api_key s hex).2;
  }

  unfoldable pub rotate_api_key :
      (hex : Text) → (key_id : UuidText) → CurrentUser → Action (ApiKey × Text)
  rotate_api_key hex key_id user = do
    key ← visible_key key_id user
    clash ← query (λ db. is_some (
        find (λ k. not (k.id == key.id) && text_eq k.key_hash (generate_api_key s hex).1)
          db.api_keys))
    raise_if clash (unhandled integrity_error)
    change (update_key key.id (renewed hex))
    pure (renewed hex key, (generate_api_key s hex).0)

abbrev pub without_key_id : ℕ → UsageLog → UsageLog
without_key_id id l = record l {
  api_key_id = if is_user id l.api_key_id then none else l.api_key_id;
}

-- A key that is revoked already goes from the table, and from the logs.
unfoldable pub without_key : (id : ℕ) → Db → Db
without_key id db = record db {
  usage_logs = map (without_key_id id) db.usage_logs;
  api_keys = select (λ k. not (k.id == id)) db.api_keys;
}

unfoldable pub revoke_api_key : (key_id : UuidText) → CurrentUser → Action (Unit {0})
revoke_api_key key_id user = do
  key ← visible_key key_id user
  change (
      if key.is_active
      then update_key key.id (λ k. record k { is_active = false })
      else without_key key.id)
