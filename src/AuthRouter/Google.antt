-- ===== src/AuthRouter/Google.antt =====
-- backend/app/routers/auth.py: sign-in with Google, and the codes that verify such an account. What
-- Google says of an id token (`verify_google_id_token`) is an argument.
pub mod Identity
use ai_inference_platform.Prelude.{
  ℕ, Bool, true, false, not, ◌&&◌, ◌||◌, Option, none, some, is_some, List, [], Text, text, length,
  ltb, ◌==◌, if◌then◌else◌,
}
use ai_inference_platform.Errors.{
  Error, Result, ok, err, app_error, unhandled, validation, data_error, integrity_error,
}
use ai_inference_platform.Models.{Org, User, signup, google}
use ai_inference_platform.Session.{
  Action, pure, lift, query, raise_if, or_raise, change, ◌>>=◌, ◌>>◌,
}
use ai_inference_platform.RefreshTokens.{any}
use ai_inference_platform.Otp.{store_otp, verify_otp}
use ai_inference_platform.Auth.{
  Services, Settings, decode_token, create_verification_token, user_by_email,
}
use ai_inference_platform.AuthRouter.{TokenResponse, issue_tokens, update_user}
use ai_inference_platform.AuthRouter.Refresh.{cookie_text}
use ai_inference_platform.AuthRouter.Register.{org_for, first_role, insert_user, same_google_id}
use ai_inference_platform.AuthRouter.Reset.{Draw, send_mail, check_claims, str_of}

-- What `verify_google_id_token` returns.
pub record GoogleIdentity : Type 0 where
  pub email : Text
  pub name : Text
  pub picture : Option Text
  pub sub : Text

-- `not user.google_id`
unfoldable pub link_google : (google_id : Text) → User → User
link_google google_id u = elim (cookie_text u.google_id) [
  | none ↦ record u { google_id = some google_id; auth_provider = google }
  | some g ↦ u
]

-- The constraints of the column where an account gets a Google id: another account has it already, or
-- it is longer than the column.
abbrev pub gets_google_id : User → Bool
gets_google_id user = not (is_some (cookie_text user.google_id))

unfoldable pub is_taken : (google_id : Text) → User → List User → Bool
is_taken google_id user users =
    any (λ u. not (u.id == user.id) && same_google_id u.google_id (some google_id)) users

-- A text that may be missing, in a column of limited length.
abbrev pub is_longer : ℕ → Option Text → Bool
is_longer limit none = false
is_longer limit (some t) = ltb limit (length t)

module _ (s : Services) (settings : Settings) where
  -- A code is stored and sent; the answer has a verification token and no access token.
  unfoldable pub ask_for_code :
      Draw → (now : ℕ) → (email name user_email google_id : Text) → Action TokenResponse
  ask_for_code d now email name user_email google_id = do
    code ← store_otp s.sha256 d.otp_id d.digits d.checked d.expiry_from d.created email signup
    send_mail (record { to = email; purpose = signup; code = code })
    pure (record {
      access_token = [];
      user_name = name;
      user_email = user_email;
      requires_otp = true;
      verification_token = some (create_verification_token s now email name google_id);
      refresh_cookie = none;
    })

  unfoldable pub google_user : (id : ℕ) → GoogleIdentity → Org × Bool → User
  google_user id g (org, is_new) = record {
    id = id;
    org_id = org.id;
    name = g.name;
    email = g.email;
    password_hash = none;
    google_id = some g.sub;
    profile_picture = g.picture;
    auth_provider = google;
    role = first_role is_new;
    is_active = false;
    is_verified = false;
    password_set = false;
    last_login_at = none;
  }

  -- `google_auth`, by the account of the address.
  unfoldable pub google_sign_in :
      Draw
      → (now id org_id jti : ℕ) → (hex : Text) → GoogleIdentity
      → (org_name : Option Text) → Option User
      → Action TokenResponse
  google_sign_in d now id org_id jti hex g org_name (some user) =
      if not user.is_verified then ask_for_code d now g.email user.name user.email g.sub else (do
        raise_if (gets_google_id user && ltb 255 (length g.sub)) (unhandled data_error)
        taken ← query (λ db. gets_google_id user && is_taken g.sub user db.users)
        raise_if taken (unhandled integrity_error)
        change
            (update_user user.id (λ u. record (link_google g.sub u) { last_login_at = some now }))
        issue_tokens s settings now jti user)
  google_sign_in d now id org_id jti hex g org_name none = do
    org ← org_for org_id hex org_name
    raise_if (ltb 255 (length g.sub) || is_longer 500 g.picture) (unhandled data_error)
    insert_user (google_user id g org)
    ask_for_code d now g.email g.name g.email g.sub

  unfoldable pub google_auth :
      Draw
      → (now id org_id jti : ℕ) → (hex : Text) → Result GoogleIdentity
      → (org_name : Option Text) → Action TokenResponse
  google_auth d now id org_id jti hex identity org_name = do
    g ← lift identity
    user ← query (user_by_email g.email)
    google_sign_in d now id org_id jti hex g org_name user

  unfoldable pub send_verification_otp : Draw → (email : Text) → Action (Unit {0})
  send_verification_otp d email = do
    found ← query (user_by_email email)
    user ← or_raise found (app_error validation "No account found with this email address.")
    raise_if user.is_verified (app_error validation "This email address is already registered.")
    code ← store_otp s.sha256 d.otp_id d.digits d.checked d.expiry_from d.created email signup
    send_mail (record { to = email; purpose = signup; code = code })

  unfoldable pub check_verification_token :
      (now : ℕ) → (email : Text) → (verification_token : Option Text) → Result (Unit {0})
  check_verification_token now email none = ok tt
  check_verification_token now email (some token) =
      check_claims (text "google_registration") "Invalid or expired verification token: "
        "Invalid verification token purpose." "Verification token email mismatch." email
        (decode_token s now token)

  -- An error that is no validation error becomes one.
  abbrev pub as_validation : Error → Error
  as_validation (app_error validation message) = app_error validation message
  as_validation e = app_error validation (str_of e)

  abbrev pub validated : Result Bool → Result Bool
  validated (ok b) = ok b
  validated (err e) = err (as_validation e)

  unfoldable pub verify_signup_code : (verified_at : ℕ) → (email code : Text) → Action Bool
  verify_signup_code verified_at email code w =
      let (r, w') = verify_otp s.sha256 verified_at email signup code w in (validated r, w')

  unfoldable pub verify_email_otp :
      (now verified_at jti : ℕ)
      → (email : Text) → (code verification_token : Option Text) → Action TokenResponse
  verify_email_otp now verified_at jti email code verification_token = do
    found ← query (user_by_email email)
    user ← or_raise found (app_error validation "No account found with this email address.")
    given ← or_raise (cookie_text code) (app_error validation "Verification code is required.")
    verify_signup_code verified_at email given
    lift (check_verification_token now email (cookie_text verification_token))
    change (
        update_user user.id
          (λ u. record u { is_verified = true; is_active = true; last_login_at = some now }))
    issue_tokens s settings now jti user
