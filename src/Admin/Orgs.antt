-- ===== src/Admin/Orgs.antt =====
-- backend/app/routers/admin/orgs.py. Limits are numbers from 0; a `DELETE` fails where a row that is
-- left refers to one that goes.
pub mod Table
pub mod Deletion
use ai_inference_platform.Prelude.{
  ℕ, Bool, true, false, not, ◌&&◌, ◌||◌, Option, none, some, is_some, List, [], ◌∷◌, Text, length,
  select, leb, ltb, ◌==◌, if◌then◌else◌, text_eq, update_where, find,
}
use ai_inference_platform.Errors.{
  Result, ok, err, app_error, unhandled, validation, not_found, data_error, integrity_error,
}
use ai_inference_platform.Ids.{UuidText, parse_uuid}
use ai_inference_platform.Models.{Db, Org, User, Role, platform_admin, UsageLog, ApiKey}
use ai_inference_platform.Session.{
  Action, pure, lift, query, raise_if, or_raise, change, ◌>>=◌, ◌>>◌,
}
use ai_inference_platform.RefreshTokens.{any}
use ai_inference_platform.Orgs.{org_by_slug, insert_org, clashes}
use ai_inference_platform.CurrentUser.{CurrentUser, require_role}
use ai_inference_platform.Completions.{org_by_id}
use ai_inference_platform.Admin.Users.{given, is_message_of}

pub record OrgCreate : Type 0 where
  pub name : Text
  pub slug : Text
  pub rate_limit_rpm : ℕ
  pub rate_limit_burst : ℕ

pub record OrgUpdate : Type 0 where
  pub name : Option Text
  pub rate_limit_rpm : Option ℕ
  pub rate_limit_burst : Option ℕ
  pub is_active : Option Bool

abbrev pub platform_admins : List Role
platform_admins = platform_admin ∷ []

unfoldable pub list_orgs : CurrentUser → Action (List Org)
list_orgs user = do require_role platform_admins user; query (λ db. db.orgs)

-- Columns of 32 bits, with a sign.
abbrev pub limits_fit : Org → Bool
limits_fit o = ltb o.rate_limit_rpm 2147483648 && ltb o.rate_limit_burst 2147483648

unfoldable pub org_of : (id : ℕ) → OrgCreate → Org
org_of id req = record {
  id = id;
  name = req.name;
  slug = req.slug;
  rate_limit_rpm = req.rate_limit_rpm;
  rate_limit_burst = req.rate_limit_burst;
  is_active = true;
}

unfoldable pub create_org : (id : ℕ) → OrgCreate → CurrentUser → Action Org
unfolding org_of
create_org id req user = do
  require_role platform_admins user
  existing ← query (org_by_slug req.slug)
  raise_if (is_some existing) (app_error validation "Org with this slug already exists")
  let org = org_of id req
  raise_if (not (limits_fit org)) (unhandled data_error)
  insert_org org
  pure org

unfoldable pub target_org : (org_id : UuidText) → CurrentUser → Action Org
target_org org_id user = do
  require_role platform_admins user
  id ← lift (parse_uuid org_id)
  found ← query (org_by_id id)
  or_raise found (app_error not_found "Org not found")

-- The fields that the request has.
unfoldable pub updated_org : OrgUpdate → Org → Org
updated_org req o = record o {
  name = given req.name o.name;
  rate_limit_rpm = given req.rate_limit_rpm o.rate_limit_rpm;
  rate_limit_burst = given req.rate_limit_burst o.rate_limit_burst;
  is_active = given req.is_active o.is_active;
}

-- Whether another row has the name.
unfoldable pub is_named : (id : ℕ) → Text → List Org → Bool
is_named id name orgs = any (λ o. not (o.id == id) && text_eq o.name name) orgs

-- `update_org` once the organization is found.
unfoldable pub store_update : OrgUpdate → Org → Action Org
store_update req target = do
  let org = updated_org req target
  raise_if (ltb 100 (length org.name) || not (limits_fit org)) (unhandled data_error)
  taken ← query (λ db. is_named target.id org.name db.orgs)
  raise_if taken (unhandled integrity_error)
  change
      (λ db. record db { orgs = update_where (λ o. o.id == target.id) (updated_org req) db.orgs })
  pure org

unfoldable pub update_org : (org_id : UuidText) → OrgUpdate → CurrentUser → Action Org
update_org org_id req user = do target ← target_org org_id user; store_update req target

abbrev pub refers_to : {A : Type 0} → (A → ℕ) → List A → Option ℕ → Bool
refers_to id rows none = false
refers_to id rows (some n) = any (λ row. id row == n) rows

abbrev pub log_in : ℕ → UsageLog → Bool
log_in org l = l.org_id == org

abbrev pub key_in : ℕ → ApiKey → Bool
key_in org k = k.org_id == org

abbrev pub user_in : ℕ → User → Bool
user_in org u = u.org_id == org

unfoldable pub without_logs : (org : ℕ) → Db → Db
without_logs org db = record db { usage_logs = select (λ l. not (log_in org l)) db.usage_logs }

-- Whether a log refers to a key of the organization.
unfoldable pub keys_in_use : (org : ℕ) → Db → Bool
keys_in_use org db =
    any (λ l. refers_to (λ k. k.id) (select (key_in org) db.api_keys) l.api_key_id) db.usage_logs

unfoldable pub without_keys : (org : ℕ) → Db → Db
without_keys org db = record db { api_keys = select (λ k. not (key_in org k)) db.api_keys }

-- Whether a log or a key refers to a user of the organization.
unfoldable pub users_in_use : (org : ℕ) → Db → Bool
users_in_use org db =
    let gone = select (user_in org) db.users in
    any (λ l. refers_to (λ u. u.id) gone l.user_id) db.usage_logs
    || any (λ k. any (λ u. u.id == k.created_by_user_id) gone) db.api_keys

-- The conversations and the messages of the users go by the cascade of their foreign keys.
unfoldable pub without_users : (org : ℕ) → Db → Db
without_users org db =
    let gone = select (user_in org) db.users in
    record db {
      users = select (λ u. not (user_in org u)) db.users;
      conversations = select (λ c. not (any (λ u. u.id == c.user_id) gone)) db.conversations;
      messages =
          select (λ m. not (any (λ u. is_message_of u.id db.conversations m) gone)) db.messages;
    }

unfoldable pub without_org : (org : ℕ) → Db → Db
without_org org db = record db { orgs = select (λ o. not (o.id == org)) db.orgs }

-- Whether a row refers to the organization.
unfoldable pub org_in_use : (org : ℕ) → Db → Bool
org_in_use org db =
    any (log_in org) db.usage_logs || any (key_in org) db.api_keys || any (user_in org) db.users

-- `delete_org` once the organization is found.
unfoldable pub remove_org : (org : ℕ) → Action (Unit {0})
remove_org org = do
  change (without_logs org)
  keys_stay ← query (keys_in_use org)
  raise_if keys_stay (unhandled integrity_error)
  change (without_keys org)
  users_stay ← query (users_in_use org)
  raise_if users_stay (unhandled integrity_error)
  change (without_users org)
  org_stays ← query (org_in_use org)
  raise_if org_stays (unhandled integrity_error)
  change (without_org org)

unfoldable pub delete_org : (org_id : UuidText) → CurrentUser → Action (Unit {0})
delete_org org_id user = do target ← target_org org_id user; remove_org target.id
