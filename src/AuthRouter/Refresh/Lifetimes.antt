-- ===== src/AuthRouter/Refresh/Lifetimes.antt =====
-- How long a refresh token is of use: the claim `exp` follows the settings, the key in Redis and the
-- cookie have seven days.
use ai_inference_platform.Prelude.{ℕ, ◌+◌, ◌≤◌, ◌≡◌, refl, ◌∙◌, true, false, some, arith, ltb}
use ai_inference_platform.Errors.{err}
use ai_inference_platform.Ids.{UuidText, canonical, uuid_text_eq, uuid_text_eq_iff}
use ai_inference_platform.Models.{User}
use ai_inference_platform.Session.{World}
use ai_inference_platform.Auth.{Services, Settings, IsSound, seconds}
use ai_inference_platform.RefreshTokens.{is_active_in}
use ai_inference_platform.RefreshTokens.Rotation.{active-store}
use ai_inference_platform.AuthRouter.{issue_tokens, seven_days}
use ai_inference_platform.AuthRouter.Refresh.{reuse_alert, refresh_token_endpoint}
use ai_inference_platform.AuthRouter.Refresh.Sessions.{
  token_of, Lives, issue_tokens_lem, reuse_ends_sessions,
}

past : (now t : ℕ) → t ≤ now → ltb now t ≡ false
past now t late = ground (arith, late)

uuid_text_eq_self : (u : UuidText) → uuid_text_eq u u ≡ true
uuid_text_eq_self u = (uuid_text_eq_iff u u).1 refl

module _ (s : Services) (settings : Settings) where
  -- The key of a token that has just been issued is active for seven days.
  issued-active :
      (made jti now : ℕ) (u : User) (w : World)
      → is_active_in now
          (canonical u.id)
          (canonical jti)
          (issue_tokens s settings made jti u w).1.redis
        ≡ ltb now (made + seconds seven_days)
  issued-active made jti now u w = rw (issue_tokens_lem s settings made jti u w) (
      active-store made now seven_days (canonical u.id) (canonical jti) (canonical u.id)
        (canonical jti) w
      ∙ rw (uuid_text_eq_self (canonical u.id), uuid_text_eq_self (canonical jti)) refl)

  -- Where the settings give refresh tokens more than seven days, a token that has not been used, and has
  -- not expired, is taken for a reused one once seven days are over: the request for a new pair fails with
  -- the alert, and ends every session of the user.
  pub unused_token_taken_for_reused :
      (made jti now new_jti : ℕ) (u : User) (w : World)
      → IsSound s
      → Lives s settings made now
      → made + seconds seven_days ≤ now
      → let w' = (issue_tokens s settings made jti u w).1 in
        let (r, w'') =
          refresh_token_endpoint s settings now new_jti
            (some (token_of s settings made jti u))
            w' in
        (r ≡ err reuse_alert)
        × ((at : ℕ) (j : UuidText) → is_active_in at (canonical u.id) j w''.redis ≡ false)
  unused_token_taken_for_reused made jti now new_jti u w sound lives late =
      let w' = (issue_tokens s settings made jti u w).1 in
      let over : is_active_in now (canonical u.id) (canonical jti) w'.redis ≡ false =
        issued-active made jti now u w ∙ past now (made + seconds seven_days) late in
      let (alert, same, ended) =
        reuse_ends_sessions s settings made jti now new_jti u w' sound lives over in
      (alert, λ at j. ended at (canonical u.id) j ∙ rw (uuid_text_eq_self (canonical u.id)) refl)
