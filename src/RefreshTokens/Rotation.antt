-- ===== src/RefreshTokens/Rotation.antt =====
-- Which refresh tokens are active after each operation on them.
use ai_inference_platform.Prelude.{
  ℕ, ◌+◌, ◌*◌, ◌≡◌, false, not, ◌&&◌, List, [], ◌∷◌, select, ltb, arith, if◌then◌else◌,
}
use ai_inference_platform.Ids.{UuidText, uuid_text_eq, uuid_text_eq_iff}
use ai_inference_platform.Session.{World, RefreshKey}
use ai_inference_platform.RefreshTokens.{
  any, is_key, is_active_in, store_active_refresh_token, revoke_refresh_token,
  revoke_all_user_refresh_tokens,
}

revoked :
    (now : ℕ) (user_id jti u j : UuidText) (ks : List RefreshKey)
    → any (λ k. is_key u j k && ltb now k.expires_at) (select (λ k. not (is_key user_id jti k)) ks)
      ≡ (if uuid_text_eq u user_id && uuid_text_eq j jti
          then false
          else any (λ k. is_key u j k && ltb now k.expires_at) ks)
unfolding any is_key
revoked now user_id jti u j [] = ground arith
revoked now user_id jti u j (k ∷ ks) = ground (
  arith,
  revoked now user_id jti u j ks,
  uuid_text_eq_iff u user_id,
  uuid_text_eq_iff j jti,
  uuid_text_eq_iff k.user_id u,
  uuid_text_eq_iff k.jti j,
  uuid_text_eq_iff k.user_id user_id,
  uuid_text_eq_iff k.jti jti,
)

revoked_all :
    (now : ℕ) (user_id u j : UuidText) (ks : List RefreshKey)
    → any
        (λ k. is_key u j k && ltb now k.expires_at)
        (select (λ k. not (uuid_text_eq k.user_id user_id)) ks)
      ≡ (if uuid_text_eq u user_id
          then false
          else any (λ k. is_key u j k && ltb now k.expires_at) ks)
unfolding any is_key
revoked_all now user_id u j [] = ground arith
revoked_all now user_id u j (k ∷ ks) = ground (
  arith,
  revoked_all now user_id u j ks,
  uuid_text_eq_iff u user_id,
  uuid_text_eq_iff k.user_id u,
  uuid_text_eq_iff k.user_id user_id,
)

-- After a token is stored it is active until it expires, and no other token changes.
pub active-store :
    (at now expires_in : ℕ) (user_id jti u j : UuidText) (w : World)
    → is_active_in now u j (store_active_refresh_token at user_id jti expires_in w).1.redis ≡ (
        if uuid_text_eq u user_id && uuid_text_eq j jti
        then ltb now (at + expires_in * 1000000)
        else is_active_in now u j w.redis)
unfolding store_active_refresh_token is_active_in
active-store at now expires_in user_id jti u j w =
    unfold any is_key in
    ground (
      arith,
      revoked now user_id jti u j w.redis,
      uuid_text_eq_iff u user_id,
      uuid_text_eq_iff j jti,
      uuid_text_eq_iff user_id u,
      uuid_text_eq_iff jti j,
    )

-- A revoked token is not active, and no other token changes.
pub active-revoke :
    (now : ℕ) (user_id jti u j : UuidText) (w : World)
    → is_active_in now u j (revoke_refresh_token user_id jti w).1.redis ≡ (
        if uuid_text_eq u user_id && uuid_text_eq j jti
        then false
        else is_active_in now u j w.redis)
unfolding revoke_refresh_token is_active_in
active-revoke now user_id jti u j w = revoked now user_id jti u j w.redis

-- After all of a user's tokens are revoked none of them is active, and no one else's changes.
pub active-revoke_all :
    (now : ℕ) (user_id u j : UuidText) (w : World)
    → is_active_in now u j (revoke_all_user_refresh_tokens user_id w).1.redis
      ≡ (if uuid_text_eq u user_id then false else is_active_in now u j w.redis)
unfolding revoke_all_user_refresh_tokens is_active_in
active-revoke_all now user_id u j w = revoked_all now user_id u j w.redis
