-- ===== src/CurrentUser.antt =====
-- backend/app/dependencies/auth.py: who a request comes from, by the `Authorization` header.
pub mod Bearer
use ai_inference_platform.Prelude.{
  ℕ, Bool, true, false, not, Option, none, some, List, [], ◌∷◌, Text, text, starts_with, drop,
  if◌then◌else◌,
}
use ai_inference_platform.Errors.{Result, ok, err, app_error, unauthorized, forbidden}
use ai_inference_platform.Ids.{UuidText, canonical, malformed, is_blank}
use ai_inference_platform.Models.{Db, ApiKey, Role, viewer, operator, role_eq}
use ai_inference_platform.Session.{
  World, Action, pure, raise, lift, raise_if, or_raise, ◌>>=◌, ◌>>◌,
}
use ai_inference_platform.Auth.{Services, Payload, decode_token}
use ai_inference_platform.ApiKeys.{lookup_api_key}

pub record CurrentUser : Type 0 where
  pub user_id : UuidText
  pub email : Text
  pub name : Text
  pub org_id : UuidText
  pub role : Role
  pub api_key_id : Option UuidText

-- `payload.get(key, default)`
abbrev pub get_or : {A : Type 0} → Option A → A → A
get_or none d = d
get_or (some a) d = a

-- `not payload.get("sub")`
unfoldable pub lacks : Option UuidText → Bool
unfolding is_blank
lacks none = true
lacks (some u) = is_blank u

unfoldable pub user_of_payload : Payload → Result CurrentUser
unfolding lacks
user_of_payload payload =
    if lacks payload.sub
    then err (app_error unauthorized "Invalid token payload")
    else ok (record {
      user_id = get_or payload.sub (malformed []);
      email = get_or payload.email [];
      name = get_or payload.name [];
      org_id = get_or payload.org_id (malformed []);
      role = get_or payload.role viewer;
      api_key_id = none;
    })

-- What follows `Bearer ` in the header.
unfoldable pub bearer_token : (auth_header : Option Text) → Result Text
bearer_token none = err (app_error unauthorized "Missing or invalid Authorization header")
bearer_token (some header) =
    if starts_with header (text "Bearer ")
    then ok (drop 7 header)
    else err (app_error unauthorized "Missing or invalid Authorization header")

abbrev pub is_api_key : Text → Bool
is_api_key token = starts_with token (text "sk-")

unfoldable pub user_of_api_key : ApiKey → CurrentUser
user_of_api_key key = record {
  user_id = canonical key.created_by_user_id;
  email = [];
  name = text "api-key";
  org_id = canonical key.org_id;
  role = operator;
  api_key_id = some (canonical key.id);
}

module _ (s : Services) where
  unfoldable pub get_current_user : (now : ℕ) → (auth_header : Option Text) → Action CurrentUser
  unfolding bearer_token user_of_payload decode_token
  get_current_user now auth_header = do
    token ← lift (bearer_token auth_header)
    raise_if (is_api_key token)
        (app_error unauthorized "API keys not accepted on this endpoint. Use JWT.")
    payload ← lift (decode_token s now token)
    lift (user_of_payload payload)

  -- The two ways of `get_current_user_or_api_key`.
  unfoldable pub by_api_key : (now : ℕ) → (token : Text) → Action CurrentUser
  unfolding lookup_api_key user_of_api_key
  by_api_key now token = do
    found ← lookup_api_key s now token
    key ← or_raise found (app_error unauthorized "Invalid or revoked API key")
    pure (user_of_api_key key)

  unfoldable pub by_jwt : (now : ℕ) → (token : Text) → Action CurrentUser
  unfolding user_of_payload decode_token
  by_jwt now token = do payload ← lift (decode_token s now token); lift (user_of_payload payload)

  unfoldable pub get_current_user_or_api_key :
      (now : ℕ) → (auth_header : Option Text) → Action CurrentUser
  unfolding bearer_token by_api_key by_jwt
  get_current_user_or_api_key now auth_header = do
    token ← lift (bearer_token auth_header)
    if is_api_key token then by_api_key now token else by_jwt now token

unfoldable pub is_one_of : Role → List Role → Bool
unfolding role_eq
is_one_of role [] = false
is_one_of role (r ∷ roles) =
    let rest = is_one_of role roles in if role_eq role r then true else rest

-- `require_role`: the check that follows `get_current_user`. The message lists the roles; here it
-- is cut short.
unfoldable pub require_role : List Role → CurrentUser → Action CurrentUser
unfolding is_one_of
require_role allowed user = do
  raise_if (not (is_one_of user.role allowed))
      (app_error forbidden "This action requires one of these roles")
  pure user
