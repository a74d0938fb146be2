-- ===== src/AuthRouter/Refresh/Sessions.antt =====
-- The sessions of a user under rotation, reuse and logout.
use ai_inference_platform.Prelude.{
  ℕ, ◌+◌, ◌*◌, ◌≤◌, ◌≡◌, ◌≢◌, refl, true, false, ◌&&◌, Option, none, some, List, [], ◌∷◌, arith,
  Text, text_eq, find, ltb, ◌==◌, if◌then◌else◌, Option-cases, inl, inr, ap,
}
use ai_inference_platform.Errors.{Result, ok, err}
use ai_inference_platform.Ids.{UuidText, canonical, parse_uuid, uuid_text_eq}
use ai_inference_platform.Models.{User}
use ai_inference_platform.Session.{World}
use ai_inference_platform.Auth.{
  Services, Settings, IsSound, Payload, refresh_payload, create_access_token, create_refresh_token,
  to_seconds, seconds, decode_token,
}
use ai_inference_platform.CurrentUser.{lacks}
use ai_inference_platform.RefreshTokens.{
  is_active_in, is_refresh_token_valid, revoke_refresh_token, revoke_all_user_refresh_tokens,
  store_active_refresh_token,
}
use ai_inference_platform.RefreshTokens.Rotation.{active-store, active-revoke, active-revoke_all}
use ai_inference_platform.AuthRouter.{TokenResponse, issue_tokens, seven_days}
use ai_inference_platform.AuthRouter.Refresh.{
  is_refresh, user_by_id, or_suspended, suspended, reuse_alert, on_reuse, cookie_text, rotate,
  refresh_token_endpoint,
}

nonempty : (t : Text) → t ≢ [] → cookie_text (some t) ≡ some t
unfolding cookie_text
nonempty [] h = absurd (h refl)
nonempty (c ∷ t) h = refl

id_of_found :
    (id : ℕ) (users : List User) (v : User) → find (λ u. u.id == id) users ≡ some v → v.id ≡ id
id_of_found id [] v found = cc
id_of_found id (u ∷ users) v found = ground (arith, id_of_found id users v)

module _ (s : Services) (settings : Settings) where
  -- The refresh token that was made for a user.
  abbrev pub token_of : (made jti : ℕ) → User → Text
  token_of made jti u = (create_refresh_token s settings made jti u).0

  -- A new pair of tokens for the account that was found.
  abbrev pub admit : (now new_jti : ℕ) → Option User → World → Result TokenResponse × World
  admit now new_jti none w = (err suspended, w)
  admit now new_jti (some v) w =
      if v.is_active then issue_tokens s settings now new_jti v w else (err suspended, w)

  abbrev pub Lives : (made now : ℕ) → Type 0
  Lives made now = to_seconds now ≤ to_seconds (made + seconds settings.refresh_token_ttl_seconds)

  pub cookie_text-encode :
      (p : Payload) → IsSound s → cookie_text (some (s.encode p)) ≡ some (s.encode p)
  cookie_text-encode p sound = nonempty (s.encode p) (sound.encode-ne-nil p)

  pub decode_token-encode :
      (now : ℕ) (p : Payload)
      → IsSound s
      → to_seconds now ≤ p.exp
      → decode_token s now (s.encode p) ≡ ok p
  unfolding decode_token
  decode_token-encode now p sound fresh = ground (arith, sound.decode-encode (to_seconds now) p)

  endpoint-rotate :
      (made jti now new_jti : ℕ) (u : User) (w : World)
      → IsSound s
      → Lives made now
      → refresh_token_endpoint s settings now new_jti (some (token_of made jti u)) w
        ≡ rotate s settings now new_jti (refresh_payload s settings made jti u) w
  endpoint-rotate made jti now new_jti u w sound fresh =
      let p = refresh_payload s settings made jti u in
      unfold refresh_token_endpoint create_refresh_token in
      rw (cookie_text-encode p sound, decode_token-encode now p sound fresh)

  -- What is left of a rotation once its payload is known to be well formed.
  rotate_lem :
      (made jti now new_jti : ℕ) (u : User) (w : World)
      → rotate s settings now new_jti (refresh_payload s settings made jti u) w ≡ (
          if is_active_in now (canonical u.id) (canonical jti) w.redis
          then (let w' = (revoke_refresh_token (canonical u.id) (canonical jti) w).1 in
              admit now new_jti (user_by_id u.id w.db) w')
          else (err reuse_alert, (revoke_all_user_refresh_tokens (canonical u.id) w).1))
  unfolding rotate is_refresh text_eq lacks refresh_payload is_refresh_token_valid on_reuse
      parse_uuid revoke_refresh_token revoke_all_user_refresh_tokens or_suspended
  rotate_lem made jti now new_jti u w = elim (Option-cases (user_by_id u.id w.db)) [
    | inl missing ↦ ground (arith, missing)
    | inr (v, found) ↦ ground (arith, found)
  ]

  pub issue_tokens_lem :
      (now jti : ℕ) (v : User) (w : World)
      → issue_tokens s settings now jti v w ≡ (
        ok (record {
          access_token = create_access_token s settings now v;
          user_name = v.name;
          user_email = v.email;
          requires_otp = false;
          verification_token = none;
          refresh_cookie = some (token_of now jti v);
        }),
        (store_active_refresh_token now (canonical v.id) (canonical jti) seven_days w).1,
      )
  unfolding issue_tokens create_refresh_token store_active_refresh_token
  issue_tokens_lem now jti v w = refl

  -- A refresh token that is not active, because it was used or revoked, ends all sessions of its
  -- user: the request fails with the alert, no token of the user is active afterwards, the tokens of
  -- others and the database are as before.
  pub reuse_ends_sessions :
      (made jti now new_jti : ℕ) (u : User) (w : World)
      → IsSound s
      → Lives made now
      → is_active_in now (canonical u.id) (canonical jti) w.redis ≡ false
      → let (r, w') =
          refresh_token_endpoint s settings now new_jti (some (token_of made jti u)) w in
        (r ≡ err reuse_alert)
        × (w'.db ≡ w.db)
        × ((at : ℕ) (user_id j : UuidText)
            → is_active_in at user_id j w'.redis ≡ (
                if uuid_text_eq user_id (canonical u.id)
                then false
                else is_active_in at user_id j w.redis))
  reuse_ends_sessions made jti now new_jti u w sound fresh used =
      rw
        (
          endpoint-rotate made jti now new_jti u w sound fresh,
          rotate_lem made jti now new_jti u w,
          used,
        )
        (
          refl,
          unfold revoke_all_user_refresh_tokens in refl,
          λ at user_id j. active-revoke_all at (canonical u.id) user_id j w,
        )

  -- An active refresh token of an active account is exchanged for a new pair: the cookie holds the
  -- new refresh token, which is active for seven days; the old one is not active any more, and no
  -- other token changes.
  pub rotation :
      (made jti now new_jti : ℕ) (u v : User) (w : World)
      → IsSound s
      → Lives made now
      → is_active_in now (canonical u.id) (canonical jti) w.redis ≡ true
      → user_by_id u.id w.db ≡ some v
      → v.is_active ≡ true
      → let (r, w') =
          refresh_token_endpoint s settings now new_jti (some (token_of made jti u)) w in
        (r
          ≡ ok (record {
            access_token = create_access_token s settings now v;
            user_name = v.name;
            user_email = v.email;
            requires_otp = false;
            verification_token = none;
            refresh_cookie = some (token_of now new_jti v);
          }))
        × (w'.db ≡ w.db)
        × ((at : ℕ) (user_id j : UuidText)
            → is_active_in at user_id j w'.redis ≡ (
                if uuid_text_eq user_id (canonical u.id) && uuid_text_eq j (canonical new_jti)
                then ltb at (now + seven_days * 1000000)
                else if uuid_text_eq user_id (canonical u.id) && uuid_text_eq j (canonical jti)
                then false
                else is_active_in at user_id j w.redis))
  rotation made jti now new_jti u v w sound fresh active found running =
      let w₁ = (revoke_refresh_token (canonical u.id) (canonical jti) w).1 in
      rw
        (
          endpoint-rotate made jti now new_jti u w sound fresh,
          rotate_lem made jti now new_jti u w,
          active,
          found,
          issue_tokens_lem now new_jti v w₁,
          running,
        )
        (
          refl,
          unfold store_active_refresh_token revoke_refresh_token in refl,
          λ at user_id j.
              rw
                (
                  active-store now at seven_days (canonical v.id) (canonical new_jti) user_id j w₁,
                  active-revoke at (canonical u.id) (canonical jti) user_id j w,
                )
                (ap
                  (λ (id : ℕ).
                    if uuid_text_eq user_id (canonical id) && uuid_text_eq j (canonical new_jti)
                    then ltb at (now + seven_days * 1000000)
                    else if uuid_text_eq user_id (canonical u.id) && uuid_text_eq j (canonical jti)
                    then false
                    else is_active_in at user_id j w.redis)
                  (id_of_found u.id w.db.users v (unfold user_by_id in found))),
        )

  -- A refresh token works once: after a successful exchange, to present the old token again before it
  -- expires gives the alert, and from then on no refresh token of its user is active, neither the one
  -- that it was exchanged for nor any other.
  pub replay_after_rotation :
      (made jti now new_jti later next_jti : ℕ) (u v : User) (w : World)
      → IsSound s
      → Lives made now
      → Lives made later
      → is_active_in now (canonical u.id) (canonical jti) w.redis ≡ true
      → user_by_id u.id w.db ≡ some v
      → v.is_active ≡ true
      → new_jti ≢ jti
      → let w' = (refresh_token_endpoint s settings now new_jti (some (token_of made jti u)) w).1 in
        let (r, w'') =
          refresh_token_endpoint s settings later next_jti (some (token_of made jti u)) w' in
        (r ≡ err reuse_alert)
        × ((at : ℕ) (j : UuidText) → is_active_in at (canonical u.id) j w''.redis ≡ false)
  replay_after_rotation made jti now new_jti later next_jti u v w sound fresh fresh' active found
        running ne =
      let w' = (refresh_token_endpoint s settings now new_jti (some (token_of made jti u)) w).1 in
      let rotated = rotation made jti now new_jti u v w sound fresh active found running in
      let used : is_active_in later (canonical u.id) (canonical jti) w'.redis ≡ false =
        rw (rotated.2 later (canonical u.id) (canonical jti))
          (unfold uuid_text_eq in ground arith) in
      let replay = reuse_ends_sessions made jti later next_jti u w' sound fresh' used in
      (replay.0, λ at j. rw (replay.2 at (canonical u.id) j) (unfold uuid_text_eq in ground arith))
