-- ===== src/AuthRouter/Register.antt =====
-- backend/app/routers/auth.py: the registration of a local account, and the profile and the
-- password of a signed-in user.
use ai_inference_platform.Prelude.{
  ℕ, Bool, true, false, ◌||◌, Option, none, some, List, [], ◌∷◌, ◌++◌, Text, find, is_some, text_eq,
  length, ltb, ◌==◌,
}
use ai_inference_platform.Errors.{
  app_error, unhandled, validation, integrity_error, data_error, no_result_found,
}
use ai_inference_platform.Ids.{parse_uuid}
use ai_inference_platform.Models.{Org, User, Role, org_admin, viewer, local}
use ai_inference_platform.Session.{
  Action, pure, lift, query, raise_if, or_raise, change, ◌>>=◌, ◌>>◌,
}
use ai_inference_platform.Auth.{Services, Settings, hash_password, user_by_email}
use ai_inference_platform.Orgs.{get_or_create_default_org, get_or_create_custom_org}
use ai_inference_platform.CurrentUser.{CurrentUser}
use ai_inference_platform.AuthRouter.{TokenResponse, issue_tokens, update_user}
use ai_inference_platform.AuthRouter.Refresh.{user_by_id}

pub record RegisterRequest : Type 0 where
  pub name : Text
  pub email : Text
  pub password : Text
  pub org_name : Option Text

-- The organization of a new user, and whether it is new: `if req.org_name: … else: …`. The first id
-- is for a default organization, the second with the hex digits for one of its own.
unfoldable pub org_for : (id : ℕ) → (hex : Text) → (org_name : Option Text) → Action (Org × Bool)
org_for id hex none = do org ← get_or_create_default_org id; pure (org, false)
org_for id hex (some []) = do org ← get_or_create_default_org id; pure (org, false)
org_for id hex (some (c ∷ t)) = get_or_create_custom_org id hex (c ∷ t)

-- `"org_admin" if is_new else "viewer"`
abbrev pub first_role : Bool → Role
first_role true = org_admin
first_role false = viewer

abbrev pub same_google_id : Option Text → Option Text → Bool
same_google_id (some g) (some h) = text_eq g h
same_google_id _ _ = false

unfoldable pub user_clashes : User → List User → Bool
user_clashes user users =
    is_some
      (find (λ u. text_eq u.email user.email || same_google_id u.google_id user.google_id) users)

-- `db.add(user)` and `db.flush()`: addresses and Google ids are unique, texts fit their columns.
unfoldable pub insert_user : User → Action (Unit {0})
insert_user user = do
  raise_if (ltb 100 (length user.name) || ltb 255 (length user.email)) (unhandled data_error)
  clash ← query (λ db. user_clashes user db.users)
  raise_if clash (unhandled integrity_error)
  change (λ db. record db { users = db.users ++ user ∷ [] })

module _ (s : Services) (settings : Settings) where
  unfoldable pub local_user : (id : ℕ) → (salt : Text) → RegisterRequest → Org × Bool → User
  local_user id salt req (org, is_new) = record {
    id = id;
    org_id = org.id;
    name = req.name;
    email = req.email;
    password_hash = some (hash_password s salt req.password);
    google_id = none;
    profile_picture = none;
    auth_provider = local;
    role = first_role is_new;
    is_active = true;
    is_verified = true;
    password_set = true;
    last_login_at = none;
  }

  unfoldable pub register :
      (now id org_id jti : ℕ) → (hex salt : Text) → RegisterRequest → Action TokenResponse
  register now id org_id jti hex salt req = do
    existing ← query (user_by_email req.email)
    raise_if (is_some existing) (app_error validation "This email address is already registered.")
    org ← org_for org_id hex req.org_name
    insert_user (local_user id salt req org)
    issue_tokens s settings now jti (local_user id salt req org)

  unfoldable pub setup_password : (salt password : Text) → CurrentUser → Action (Unit {0})
  setup_password salt password current_user = do
    id ← lift (parse_uuid current_user.user_id)
    found ← query (user_by_id id)
    user ← or_raise found (app_error validation "User not found.")
    change (
        update_user user.id (λ u. record u {
          password_hash = some (hash_password s salt password);
          password_set = true;
        }))

-- `UserProfileResponse`
pub record UserProfile : Type 0 where
  pub user : User
  pub org_name : Text

-- `scalar_one` raises where there is no row.
unfoldable pub get_me : CurrentUser → Action UserProfile
get_me current_user = do
  id ← lift (parse_uuid current_user.user_id)
  found ← query (user_by_id id)
  user ← or_raise found (unhandled no_result_found)
  found_org ← query (λ db. find (λ (o : Org). o.id == user.org_id) db.orgs)
  org ← or_raise found_org (unhandled no_result_found)
  pure (record { user = user; org_name = org.name })
