-- ===== src/Tests/Administration.antt =====
-- Examples of the administration of users and keys.
use ai_inference_platform.Prelude.{
  ℕ, ◌≡◌, refl, true, none, [], ◌∷◌, Text, text, arith, select, length, All, ◌==◌, ◌||◌,
}
use ai_inference_platform.Errors.{ok}
use ai_inference_platform.Ids.{canonical, parse_uuid}
use ai_inference_platform.Models.{User, Org, ApiKey, empty_db, org_admin, viewer, local, role_eq}
use ai_inference_platform.Session.{World, empty_world}
use ai_inference_platform.CurrentUser.{CurrentUser, require_role, is_one_of}
use ai_inference_platform.Admin.{org_scope}
use ai_inference_platform.Admin.Users.{delete_user, target_user, user_in_scope, created_by}
use ai_inference_platform.Admin.Tenants.{members, delete, administer, administer-members}
use ai_inference_platform.Admin.Removal.{IsForgotten, is_in_one_of, delete_user_leaves_no_reference}
use ai_inference_platform.Admin.Keys.{visible_key, creator_scope, is_visible}
use ai_inference_platform.Tests.Tokens.{services}

abbrev person : (id org_id : ℕ) → Text → User
person id org_id email = record {
  id = id;
  org_id = org_id;
  name = text "Ada";
  email = email;
  password_hash = none;
  google_id = none;
  profile_picture = none;
  auth_provider = local;
  role = viewer;
  is_active = true;
  is_verified = true;
  password_set = true;
  last_login_at = none;
}

abbrev acme : Org
acme = record {
  id = 9;
  name = text "Acme";
  slug = text "acme";
  rate_limit_rpm = 60;
  rate_limit_burst = 10;
  is_active = true;
}

abbrev world : World
world = record empty_world {
  db = record empty_db {
    orgs = acme ∷ [];
    users = person 1 9 (text "ada@acme.org") ∷ person 2 8 (text "bob@bolt.org") ∷ [];
  };
}

abbrev admin : CurrentUser
admin = record {
  user_id = canonical 1;
  email = text "ada@acme.org";
  name = text "Ada";
  org_id = canonical 9;
  role = org_admin;
  api_key_id = none;
}

administer-members_example :
    members 8 (administer services admin (delete (canonical 2)) world).db.users
    ≡ members 8 world.db.users
administer-members_example =
    administer-members services admin 9 8 (delete (canonical 2)) world refl
      (unfold parse_uuid in refl) (λ e. omega (arith, e)) ((λ e. omega (arith, e), tt), (tt, tt))

deleted : (delete_user (canonical 1) admin world).0 ≡ ok tt
unfolding delete_user target_user require_role is_one_of role_eq parse_uuid org_scope user_in_scope
deleted = refl

delete_user_leaves_no_reference_example :
    let db = (delete_user (canonical 1) admin world).1.db in
    (select (λ u. u.id == 1) db.users ≡ [])
    × (select (created_by 1) db.api_keys ≡ [])
    × (select (λ c. c.user_id == 1) db.conversations ≡ [])
    × (select (λ m. m.user_id == 1 || is_in_one_of 1 world.db.conversations m) db.messages ≡ [])
    × All (IsForgotten 1 (select (created_by 1) world.db.api_keys)) db.usage_logs
    × (length db.usage_logs ≡ length world.db.usage_logs)
delete_user_leaves_no_reference_example =
    delete_user_leaves_no_reference admin 1 (canonical 1) world (unfold parse_uuid in refl) deleted

abbrev key : ApiKey
key = record {
  id = 5;
  org_id = 9;
  created_by_user_id = 1;
  name = text "ci";
  key_hash = text "sk-abcdef";
  key_prefix = text "sk-abcde";
  is_active = true;
  expires_at = none;
  last_used_at = none;
  created_at = 100;
}

abbrev open_world : World
open_world = record world { committed = world.db }

abbrev world_with_key : World
world_with_key = record world { db = record world.db { api_keys = key ∷ [] } }

visible : (visible_key (canonical 5) admin world_with_key).0 ≡ ok key
unfolding visible_key require_role is_one_of role_eq parse_uuid org_scope creator_scope is_visible
visible = refl
