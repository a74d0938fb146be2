-- ===== src/AuthRouter/Login.antt =====
-- backend/app/routers/auth.py: who can log in, and what a failed login says.
use ai_inference_platform.Prelude.{
  ℕ, ◌≡◌, ◌↔◌, ◌⊎◌, inl, inr, Bool, true, false, none, some, arith, Text,
}
use ai_inference_platform.Errors.{
  Result, ok, err, app_error, unhandled, validation, attribute_error,
}
use ai_inference_platform.Models.{User}
use ai_inference_platform.Session.{World}
use ai_inference_platform.Auth.{
  Services, Settings, user_by_email, authenticate_user, verify_password,
}
use ai_inference_platform.RefreshTokens.{store_active_refresh_token}
use ai_inference_platform.AuthRouter.{TokenResponse, issue_tokens, try_login, login_error, login}

-- Whether a login succeeded.
abbrev pub is_ok : Result TokenResponse → Bool
is_ok (ok r) = true
is_ok (err e) = false

module _ (s : Services) (settings : Settings) where
  -- A login succeeds if and only if the address has an account with a password that is the one
  -- given, and the account is active and verified.
  pub login_iff :
      (now jti : ℕ) (email password : Text) (w : World) (u : User) (hashed : Text)
      → user_by_email email w.db ≡ some u
      → u.password_hash ≡ some hashed
      → (is_ok (login s settings now jti email password w).0 ≡ true)
        ↔ ((s.checkpw password hashed ≡ true) × (u.is_active ≡ true) × (u.is_verified ≡ true))
  unfolding login try_login authenticate_user verify_password issue_tokens
      store_active_refresh_token
  login_iff now jti email password w u hashed found has =
      (λ h. ground (arith, found, has), λ h. ground (arith, found, has))

  -- An unknown address and a wrong password get the same answer.
  pub wrong_credentials :
      (now jti : ℕ) (email password : Text) (w : World)
      → (user_by_email email w.db ≡ none)
        ⊎ ((u : User) × (hashed : Text) × (user_by_email email w.db ≡ some u)
            × (u.password_hash ≡ some hashed)
            × (s.checkpw password hashed ≡ false))
      → login s settings now jti email password w
        ≡ (err (app_error validation "Incorrect email or password."), w)
  unfolding login try_login authenticate_user verify_password login_error
  wrong_credentials now jti email password w (inl missing) = ground (arith, missing)
  wrong_credentials now jti email password w (inr (u, hashed, found, has, wrong)) =
      ground (arith, found, has, wrong)

  -- An account without a password, as Google sign-in makes it, gets no answer of the kind: whatever
  -- the password, the login raises an exception that is not an application error.
  pub login_without_password :
      (now jti : ℕ) (email password : Text) (w : World) (u : User)
      → user_by_email email w.db ≡ some u
      → u.password_hash ≡ none
      → login s settings now jti email password w ≡ (err (unhandled attribute_error), w)
  unfolding login try_login authenticate_user verify_password login_error
  login_without_password now jti email password w u found lacking = ground (arith, found, lacking)
