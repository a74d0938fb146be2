-- ===== src/AuthRouter.antt =====
-- backend/app/routers/auth.py: what the endpoints share, and the sign-in of an existing account.
--
-- A handler's body runs as an action; `with_db` of Session is the session around it. The Set-Cookie
-- header is part of the response, which a handler that raises does not send. The fresh ids, the
-- salt, the draws and the readings of the clock are arguments; logging and metrics are left out.
pub mod Register
pub mod Refresh
pub mod Google
pub mod Reset
pub mod Login
pub mod Accounts
pub mod Founders
use ai_inference_platform.Prelude.{
  ℕ, String, Bool, true, false, not, Option, none, some, List, [], ◌∷◌, Text, update_where, ◌==◌,
  if◌then◌else◌,
}
use ai_inference_platform.Errors.{
  Error, Kind, Result, ok, err, app_error, unhandled, validation, invalid_credentials,
}
use ai_inference_platform.Ids.{UuidText, canonical}
use ai_inference_platform.Models.{Db, User}
use ai_inference_platform.Session.{World, Action, pure, raise, raise_if, change, ◌>>=◌, ◌>>◌}
use ai_inference_platform.Auth.{
  Services, Settings, create_access_token, create_refresh_token, authenticate_user,
}
use ai_inference_platform.RefreshTokens.{store_active_refresh_token}

-- `TokenResponse`, with the cookie `refresh_token` that goes with it.
pub record TokenResponse : Type 0 where
  pub access_token : Text
  pub user_name : Text
  pub user_email : Text
  pub requires_otp : Bool
  pub verification_token : Option Text
  pub refresh_cookie : Option Text

-- A change of a user's row.
abbrev pub update_user : ℕ → (User → User) → Db → Db
update_user id f db = record db { users = update_where (λ u. u.id == id) f db.users }

-- `max_age=604800`, and the time to live of the key in Redis
abbrev pub seven_days : ℕ
seven_days = 604800

pub record CookieSettings : Type 0 where
  pub cookie_secure : Bool
  pub cookie_samesite : String

pub record Cookie : Type 0 where
  pub key : String
  pub value : Text
  pub httponly : Bool
  pub secure : Bool
  pub samesite : String
  pub path : String
  pub max_age : ℕ

-- The cookie of the response, for the refresh token of `refresh_cookie`.
unfoldable pub set_refresh_cookie : CookieSettings → (refresh_token : Text) → Cookie
set_refresh_cookie settings refresh_token = record {
  key = "refresh_token";
  value = refresh_token;
  httponly = true;
  secure = settings.cookie_secure;
  samesite = settings.cookie_samesite;
  path = "/auth";
  max_age = seven_days;
}

-- The endpoint `/config`.
unfoldable pub get_auth_config : (google_client_id : Option Text) → Option Text
get_auth_config google_client_id = google_client_id

module _ (s : Services) (settings : Settings) where
  -- The end of every sign-in: a new access token, a new refresh token, which is stored as active,
  -- and the cookie.
  unfoldable pub issue_tokens : (now jti : ℕ) → User → Action TokenResponse
  issue_tokens now jti user = do
    let (refresh_token, token_jti) = create_refresh_token s settings now jti user
    store_active_refresh_token now (canonical user.id) token_jti seven_days
    pure (record {
      access_token = create_access_token s settings now user;
      user_name = user.name;
      user_email = user.email;
      requires_otp = false;
      verification_token = none;
      refresh_cookie = some refresh_token;
    })

  -- The `try` block of `login`.
  unfoldable pub try_login : (now jti : ℕ) → (email password : Text) → Action TokenResponse
  try_login now jti email password = do
    user ← authenticate_user s email password
    raise_if (not user.is_verified)
        (app_error validation "Your email address has not been verified yet.")
    change (update_user user.id (λ u. record u { last_login_at = some now }))
    issue_tokens now jti user

  -- The `except` clauses of `login`: wrong credentials become a validation error.
  unfoldable pub login_error : Error → Error
  login_error (app_error invalid_credentials message) =
      app_error validation "Incorrect email or password."
  login_error e = e

  abbrev pub recover : Result TokenResponse → Result TokenResponse
  recover (ok r) = ok r
  recover (err e) = err (login_error e)

  unfoldable pub login : (now jti : ℕ) → (email password : Text) → Action TokenResponse
  unfolding login_error
  login now jti email password w =
      let (r, w') = try_login now jti email password w in (recover r, w')
