-- ===== src/RefreshTokens.antt =====
-- backend/app/services/auth_service.py: the active refresh tokens, kept in Redis under
-- `refresh_token:{user_id}:{jti}` until they expire.
pub mod Rotation
use ai_inference_platform.Prelude.{
  ℕ, ◌+◌, ◌*◌, Bool, true, false, not, ◌&&◌, List, [], ◌∷◌, select, ltb, if◌then◌else◌,
}
use ai_inference_platform.Errors.{Result, ok}
use ai_inference_platform.Ids.{UuidText, uuid_text_eq}
use ai_inference_platform.Session.{World, RefreshKey, Action}

unfoldable pub is_key : UuidText → UuidText → RefreshKey → Bool
is_key user_id jti k = uuid_text_eq k.user_id user_id && uuid_text_eq k.jti jti

unfoldable pub any {ℓ} : {A : Type ℓ} → (A → Bool) → List A → Bool
any p [] = false
any p (x ∷ xs) = let rest = any p xs in if p x then true else rest

-- `setex`: the key is written anew, with its time to live in seconds.
unfoldable pub store_active_refresh_token :
    (now : ℕ) → (user_id jti : UuidText) → (expires_in : ℕ) → Action (Unit {0})
store_active_refresh_token now user_id jti expires_in w = (
  ok tt,
  record w {
    redis =
        record { user_id = user_id; jti = jti; expires_at = now + expires_in * 1000000 }
        ∷ select (λ k. not (is_key user_id jti k)) w.redis;
  },
)

unfoldable pub revoke_refresh_token : (user_id jti : UuidText) → Action (Unit {0})
revoke_refresh_token user_id jti w =
    (ok tt, record w { redis = select (λ k. not (is_key user_id jti k)) w.redis })

-- Whether the key is there and has not expired.
unfoldable pub is_active_in : (now : ℕ) → (user_id jti : UuidText) → List RefreshKey → Bool
unfolding is_key any
is_active_in now user_id jti = any (λ k. is_key user_id jti k && ltb now k.expires_at)

unfoldable pub is_refresh_token_valid : (now : ℕ) → (user_id jti : UuidText) → Action Bool
is_refresh_token_valid now user_id jti w = (ok (is_active_in now user_id jti w.redis), w)

-- `keys(f"refresh_token:{user_id}:*")`, and `delete` of what is found.
unfoldable pub revoke_all_user_refresh_tokens : (user_id : UuidText) → Action (Unit {0})
revoke_all_user_refresh_tokens user_id w =
    (ok tt, record w { redis = select (λ k. not (uuid_text_eq k.user_id user_id)) w.redis })
