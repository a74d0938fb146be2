-- ===== src/AuthRouter/Refresh.antt =====
-- backend/app/routers/auth.py: the rotation of refresh tokens and the logout.
pub mod Sessions
pub mod Lifetimes
use ai_inference_platform.Prelude.{
  ℕ, String, Bool, true, false, not, ◌||◌, Option, none, some, List, [], ◌∷◌, Text, text, text_eq,
  find, ◌==◌, if◌then◌else◌,
}
use ai_inference_platform.Errors.{Error, Result, ok, err, app_error, unauthorized}
use ai_inference_platform.Ids.{UuidText, malformed, parse_uuid}
use ai_inference_platform.Models.{Db, User}
use ai_inference_platform.Session.{
  World, Action, pure, raise, lift, query, raise_if, or_raise, change, ◌>>=◌, ◌>>◌,
}
use ai_inference_platform.Auth.{Services, Settings, Payload, decode_token}
use ai_inference_platform.CurrentUser.{lacks, get_or}
use ai_inference_platform.RefreshTokens.{
  is_refresh_token_valid, revoke_refresh_token, revoke_all_user_refresh_tokens,
}
use ai_inference_platform.AuthRouter.{TokenResponse, issue_tokens}

-- `token_type != "refresh"`
unfoldable pub is_refresh : Option Text → Bool
is_refresh none = false
is_refresh (some t) = text_eq t (text "refresh")

unfoldable pub user_by_id : ℕ → Db → Option User
user_by_id id db = find (λ u. u.id == id) db.users

abbrev pub suspended : Error
suspended = app_error unauthorized "Account is suspended or invalid."

unfoldable pub or_suspended : Option User → Action User
or_suspended none = raise suspended
or_suspended (some user) = if user.is_active then pure user else raise suspended

abbrev pub reuse_alert : Error
reuse_alert =
    app_error unauthorized
      "Security Alert: Token already used or revoked. All active sessions terminated."

-- A token that is not active any more ends every session of its user.
unfoldable pub on_reuse : Bool → UuidText → Action (Unit {0})
on_reuse true user_id = pure tt
on_reuse false user_id = do revoke_all_user_refresh_tokens user_id; raise reuse_alert

-- `not cookie`
unfoldable pub cookie_text : Option Text → Option Text
cookie_text none = none
cookie_text (some []) = none
cookie_text (some (c ∷ t)) = some (c ∷ t)

module _ (s : Services) (settings : Settings) where
  -- `refresh_token_endpoint`, from the decoded payload on.
  unfoldable pub rotate : (now new_jti : ℕ) → Payload → Action TokenResponse
  rotate now new_jti payload = do
    raise_if (lacks payload.sub || lacks payload.jti || not (is_refresh payload.type))
        (app_error unauthorized "Invalid refresh token payload.")
    let user_id = get_or payload.sub (malformed [])
    let jti = get_or payload.jti (malformed [])
    valid ← is_refresh_token_valid now user_id jti
    on_reuse valid user_id
    revoke_refresh_token user_id jti
    id ← lift (parse_uuid user_id)
    found ← query (user_by_id id)
    user ← or_suspended found
    issue_tokens s settings now new_jti user

  unfoldable pub refresh_token_endpoint :
      (now new_jti : ℕ) → (refresh_token : Option Text) → Action TokenResponse
  refresh_token_endpoint now new_jti refresh_token = do
    token ←
        or_raise (cookie_text refresh_token)
          (app_error unauthorized "Missing refresh token cookie.")
    payload ← lift (decode_token s now token)
    rotate now new_jti payload

  -- The `try` block of `logout`: whatever goes wrong is ignored.
  unfoldable pub revoke_payload : Result Payload → Action (Unit {0})
  revoke_payload (err e) = pure tt
  revoke_payload (ok payload) =
      if lacks payload.sub || lacks payload.jti
      then pure tt
      else revoke_refresh_token (get_or payload.sub (malformed []))
          (get_or payload.jti (malformed []))

  unfoldable pub logout : (now : ℕ) → (refresh_token : Option Text) → Action (Unit {0})
  logout now refresh_token = elim (cookie_text refresh_token) [
    | none ↦ pure tt
    | some token ↦ revoke_payload (decode_token s now token)
  ]
