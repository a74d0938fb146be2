-- ===== src/Tests/Accounts.antt =====
-- Examples of the accounts: tokens, sessions and logins.
use ai_inference_platform.Prelude.{
  starts_with, ℕ, ◌*◌, ◌+◌, ◌≡◌, refl, true, false, ◌&&◌, Option, none, some, List, [], ◌∷◌, Text,
  text, arith, ltb, if◌then◌else◌, text_eq,
}
use ai_inference_platform.Errors.{Result, ok, err, app_error, unauthorized}
use ai_inference_platform.Ids.{UuidText, canonical, malformed, uuid_text_eq}
use ai_inference_platform.Models.{User, empty_db, operator, viewer, local}
use ai_inference_platform.Session.{World, RefreshKey}
use ai_inference_platform.Auth.{create_access_token, create_refresh_token, user_by_email}
use ai_inference_platform.RefreshTokens.{is_active_in, is_key, any}
use ai_inference_platform.CurrentUser.{CurrentUser, get_current_user, get_current_user_or_api_key}
use ai_inference_platform.CurrentUser.Bearer.{bearer, refresh_token_opens}
use ai_inference_platform.AuthRouter.{seven_days}
use ai_inference_platform.AuthRouter.Refresh.{refresh_token_endpoint, reuse_alert, user_by_id}
use ai_inference_platform.AuthRouter.Refresh.Sessions.{
  token_of, reuse_ends_sessions, rotation, replay_after_rotation,
}
use ai_inference_platform.AuthRouter.Google.{is_taken, google_auth}
use ai_inference_platform.AuthRouter.Google.Identity.{
  verify_google_id_token, has_at, simulated_token_signs_in,
}
use ai_inference_platform.AuthRouter.Reset.{Draw}
use ai_inference_platform.Tests.Tokens.{services, services-IsSound, settings}

abbrev ada : User
ada = record {
  id = 1;
  org_id = 9;
  name = text "Ada";
  email = text "ada@example.org";
  password_hash = some (text "secret");
  google_id = none;
  profile_picture = none;
  auth_provider = local;
  role = operator;
  is_active = true;
  is_verified = true;
  password_set = true;
  last_login_at = none;
}

abbrev ada_by_google : User
ada_by_google = record ada { password_hash = none }

abbrev with_user : User → List RefreshKey → World
with_user u keys = record {
  committed = record empty_db { users = u ∷ [] };
  db = record empty_db { users = u ∷ [] };
  redis = keys;
  outbox = [];
}

abbrev key : ℕ → RefreshKey
key jti = record { user_id = canonical 1; jti = canonical jti; expires_at = 604800000000 }

-- Ada's session, whose refresh token has the id 5.
abbrev session : World
session = with_user ada (key 5 ∷ [])

abbrev ada_now : CurrentUser
ada_now = record {
  user_id = canonical 1;
  email = text "ada@example.org";
  name = text "Ada";
  org_id = canonical 9;
  role = operator;
  api_key_id = none;
}

abbrev access_header : Option Text
access_header = some (bearer (create_access_token services settings 0 ada))

abbrev nobody : CurrentUser
nobody = record {
  user_id = canonical 1;
  email = [];
  name = [];
  org_id = malformed [];
  role = viewer;
  api_key_id = none;
}

abbrev refresh_header : Option Text
refresh_header = some (bearer (create_refresh_token services settings 0 5 ada).0)

refresh_token_opens_example :
    (get_current_user services 1000000 refresh_header session ≡ (ok nobody, session))
    × (get_current_user_or_api_key services 1000000 refresh_header session ≡ (ok nobody, session))
refresh_token_opens_example =
    refresh_token_opens services services-IsSound settings 0 1000000 5 ada session (omega arith)

abbrev refusal : Result CurrentUser
refusal = err (app_error unauthorized "Invalid or expired token")

active : is_active_in 1000000 (canonical 1) (canonical 5) session.redis ≡ true
unfolding is_active_in is_key any uuid_text_eq
active = refl

inactive : is_active_in 1000000 (canonical 1) (canonical 4) session.redis ≡ false
unfolding is_active_in is_key any uuid_text_eq
inactive = refl

reuse_ends_sessions_example :
    let (r, w') =
      refresh_token_endpoint services settings 1000000 6
        (some (token_of services settings 0 4 ada))
        session in
    (r ≡ err reuse_alert)
    × (w'.db ≡ session.db)
    × ((at : ℕ) (user_id j : UuidText)
        → is_active_in at user_id j w'.redis ≡ (
            if uuid_text_eq user_id (canonical 1)
            then false
            else is_active_in at user_id j session.redis))
reuse_ends_sessions_example =
    reuse_ends_sessions services settings 0 4 1000000 6 ada session services-IsSound (omega arith)
      inactive

rotation_example :
    let (r, w') =
      refresh_token_endpoint services settings 1000000 6
        (some (token_of services settings 0 5 ada))
        session in
    (r
      ≡ ok (record {
        access_token = create_access_token services settings 1000000 ada;
        user_name = text "Ada";
        user_email = text "ada@example.org";
        requires_otp = false;
        verification_token = none;
        refresh_cookie = some (token_of services settings 1000000 6 ada);
      }))
    × (w'.db ≡ session.db)
    × ((at : ℕ) (user_id j : UuidText)
        → is_active_in at user_id j w'.redis ≡ (
            if uuid_text_eq user_id (canonical 1) && uuid_text_eq j (canonical 6)
            then ltb at (1000000 + seven_days * 1000000)
            else if uuid_text_eq user_id (canonical 1) && uuid_text_eq j (canonical 5)
            then false
            else is_active_in at user_id j session.redis))
rotation_example =
    rotation services settings 0 5 1000000 6 ada ada session services-IsSound (omega arith) active
      (unfold user_by_id in refl) refl

replay_after_rotation_example :
    let w' =
      (refresh_token_endpoint services settings 1000000 6
        (some (token_of services settings 0 5 ada))
        session).1 in
    let (r, w'') =
      refresh_token_endpoint services settings 2000000 7
        (some (token_of services settings 0 5 ada))
        w' in
    (r ≡ err reuse_alert)
    × ((at : ℕ) (j : UuidText) → is_active_in at (canonical 1) j w''.redis ≡ false)
replay_after_rotation_example =
    replay_after_rotation services settings 0 5 1000000 6 2000000 7 ada ada session services-IsSound
      (omega arith) (omega arith) active (unfold user_by_id in refl) refl (λ e. omega (arith, e))

abbrev draw : Draw
draw = record { otp_id = 1; digits = []; checked = 0; expiry_from = 0; created = 0 }

simulated_token_signs_in_example :
    (google_auth services settings draw 0 2 3 6 []
      (verify_google_id_token
        (some (text "client"))
        (λ t. none)
        (λ t. none)
        (text "google-id-ada@example.org"))
      none
      session).0
    ≡ ok (record {
      access_token = create_access_token services settings 0 ada;
      user_name = text "Ada";
      user_email = text "ada@example.org";
      requires_otp = false;
      verification_token = none;
      refresh_cookie = some (create_refresh_token services settings 0 6 ada).0;
    })
simulated_token_signs_in_example =
    simulated_token_signs_in services settings (some (text "client")) (λ t. none) (λ t. none)
      (text "ada@example.org") draw 0 2 3 6 [] none session ada (unfold has_at in refl)
      (unfold starts_with in refl) (unfold starts_with in refl)
      (unfold user_by_email text_eq in refl) refl (omega arith) (unfold is_taken any in refl)
