-- ===== src/AuthRouter/Reset.antt =====
-- backend/app/routers/auth.py: the reset of a forgotten password by a code and a signed token.
pub mod Passwords
use Prim.Native.String.{◌++◌ as str_append}
use ai_inference_platform.Prelude.{
  ℕ, String, Bool, true, false, not, Option, none, some, List, [], ◌∷◌, ◌++◌, Text, text, text_eq,
  select, find, ltb, ◌==◌, if◌then◌else◌,
}
use ai_inference_platform.Errors.{Error, Result, ok, err, app_error, unhandled, validation}
use ai_inference_platform.Ids.{canonical}
use ai_inference_platform.Models.{Db, User, Otp, forgot_password}
use ai_inference_platform.Session.{
  Mail, Action, pure, lift, query, raise_if, or_raise, change, ◌>>=◌, ◌>>◌,
}
use ai_inference_platform.Otp.{store_otp, verify_otp, latest, is_for, clean_email}
use ai_inference_platform.Auth.{
  Services, Settings, Payload, hash_password, decode_token, create_reset_token, user_by_email,
}
use ai_inference_platform.RefreshTokens.{revoke_all_user_refresh_tokens}
use ai_inference_platform.AuthRouter.{update_user}
use ai_inference_platform.AuthRouter.Refresh.{cookie_text}

-- A message is handed to the mail service, which does not raise: it falls back to the console.
unfoldable pub send_mail : Mail → Action (Unit {0})
send_mail mail w = (ok tt, record w { outbox = w.outbox ++ mail ∷ [] })

-- What the draws, the ids and the readings of the clock are for one request for a code.
pub record Draw : Type 0 where
  pub otp_id : ℕ
  pub digits : List ℕ
  pub checked : ℕ
  pub expiry_from : ℕ
  pub created : ℕ

-- `should_send`
abbrev pub verified_user : Option User → Option User
verified_user none = none
verified_user (some u) = if u.is_verified then some u else none

-- `str(e)`
abbrev pub str_of : Error → String
str_of (app_error kind message) = message
str_of (unhandled e) = ""

abbrev pub claims : Option Text → Text → Bool
claims none purpose = false
claims (some p) purpose = text_eq p purpose

abbrev pub is_email : Option Text → Text → Bool
is_email none email = false
is_email (some e) email = text_eq e email

-- The checks of a token's purpose and address, and the `except` clause around them.
unfoldable pub check_claims :
    (expected : Text)
    → (prefix wrong_purpose wrong_email : String) → (email : Text) → Result Payload
    → Result (Unit {0})
check_claims expected prefix wrong_purpose wrong_email email (err e) =
    err (app_error validation (str_append prefix (str_of e)))
check_claims expected prefix wrong_purpose wrong_email email (ok payload) =
    if not (claims payload.purpose expected)
    then err (app_error validation (str_append prefix wrong_purpose))
    else if not (is_email payload.email email)
    then err (app_error validation (str_append prefix wrong_email))
    else ok tt

-- The newest code for a reset, as the endpoint looks for it.
unfoldable pub reset_otp : Text → Db → Option Otp
reset_otp email db = latest (is_for (clean_email email) forgot_password) db.otps

module _ (s : Services) (settings : Settings) where
  -- Only a verified account is sent a code.
  unfoldable pub send_reset_code : Draw → (email : Text) → Option User → Action (Unit {0})
  send_reset_code d email none = pure tt
  send_reset_code d email (some user) = do
    code ←
        store_otp s.sha256 d.otp_id d.digits d.checked d.expiry_from d.created email forgot_password
    send_mail (record { to = email; purpose = forgot_password; code = code })

  -- The reply is the reset token.
  unfoldable pub forgot_password_endpoint : Draw → (now : ℕ) → (email : Text) → Action Text
  forgot_password_endpoint d now email = do
    user ← query (user_by_email email)
    send_reset_code d email (verified_user user)
    pure (create_reset_token s now email)

  unfoldable pub check_reset_token :
      (now : ℕ) → (email : Text) → (verification_token : Option Text) → Result (Unit {0})
  check_reset_token now email none = ok tt
  check_reset_token now email (some token) =
      check_claims (text "password_reset") "Invalid or expired reset token: "
        "Invalid reset token purpose." "Reset token email mismatch." email
        (decode_token s now token)

  unfoldable pub verify_reset_otp :
      (now verified_at : ℕ)
      → (email : Text) → (code verification_token : Option Text) → Action (Unit {0})
  verify_reset_otp now verified_at email code verification_token = do
    given ← or_raise (cookie_text code) (app_error validation "Verification code is required.")
    lift (check_reset_token now email (cookie_text verification_token))
    verify_otp s.sha256 verified_at email forgot_password given
    pure tt

  -- A code that was not verified before is verified on the fly.
  unfoldable pub verify_on_the_fly :
      (verified_at : ℕ) → (email : Text) → (code : Option Text) → Otp → Action (Unit {0})
  verify_on_the_fly verified_at email code o = if o.verified then pure tt else (do
    given ← or_raise (cookie_text code) (app_error validation "Verification code is required.")
    verify_otp s.sha256 verified_at email forgot_password given
    pure tt)

  -- `db.refresh(otp_record)`
  abbrev pub reload : Otp → Db → Option Otp
  reload o db = find (λ r. r.id == o.id) db.otps

  unfoldable pub set_new_password : (salt new_password : Text) → User → Otp → Action (Unit {0})
  set_new_password salt new_password user o = do
    change (
        update_user user.id (λ u. record u {
          password_hash = some (hash_password s salt new_password);
          password_set = true;
        }))
    change (λ db. record db { otps = select (λ r. not (r.id == o.id)) db.otps })
    revoke_all_user_refresh_tokens (canonical user.id)

  unfoldable pub reset_for :
      (verified_at checked_at : ℕ)
      → (salt email : Text) → (code : Option Text) → (new_password : Text) → Option User
      → Action (Unit {0})
  reset_for verified_at checked_at salt email code new_password none = pure tt
  reset_for verified_at checked_at salt email code new_password (some user) = do
    found ← query (reset_otp email)
    otp_record ←
        or_raise found (app_error validation "No password reset request found. Please try again.")
    verify_on_the_fly verified_at email code otp_record
    reloaded ← query (reload otp_record)
    current ←
        or_raise reloaded
          (app_error validation "No password reset request found. Please try again.")
    raise_if (not current.verified)
        (app_error validation "Verification code has not been verified.")
    raise_if (ltb current.expires_at checked_at)
        (app_error validation "The verification code has expired. Please request a new code.")
    set_new_password salt new_password user current

  unfoldable pub reset_password :
      (now verified_at checked_at : ℕ)
      → (salt email : Text) → (code reset_token : Option Text) → (new_password : Text)
      → Action (Unit {0})
  reset_password now verified_at checked_at salt email code reset_token new_password = do
    token ← or_raise (cookie_text reset_token) (app_error validation "Reset token is required.")
    lift (
        check_claims (text "password_reset") "Invalid or expired reset token: "
          "Invalid reset token purpose" "Reset token email mismatch" email
          (decode_token s now token))
    user ← query (user_by_email email)
    reset_for verified_at checked_at salt email code new_password (verified_user user)
