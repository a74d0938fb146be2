-- ===== src/CurrentUser/Bearer.antt =====
-- Which tokens open a request, and as whom.
use ai_inference_platform.Prelude.{
  ℕ, ◌+◌, ◌≤◌, ◌<◌, ◌≡◌, none, some, [], ◌++◌, arith, Text, text, starts_with,
}
use ai_inference_platform.Errors.{Result, ok, err, app_error, unauthorized}
use ai_inference_platform.Ids.{canonical, malformed}
use ai_inference_platform.Models.{User, viewer}
use ai_inference_platform.Session.{World}
use ai_inference_platform.Auth.{
  Services, Settings, IsSound, Payload, access_payload, refresh_payload, create_access_token,
  create_refresh_token, to_seconds, seconds,
}
use ai_inference_platform.CurrentUser.{
  CurrentUser, user_of_payload, get_current_user, get_current_user_or_api_key,
}

abbrev pub bearer : Text → Text
bearer token = text "Bearer " ++ token

module _ (s : Services) (sound : IsSound s) where
  -- A token of the service opens both dependencies until it expires, as the user of its claims.
  opens :
      (now : ℕ) (p : Payload) (w : World)
      → to_seconds now ≤ p.exp
      → (get_current_user s now (some (bearer (s.encode p))) w ≡ (user_of_payload p, w))
        × (get_current_user_or_api_key s now (some (bearer (s.encode p))) w
            ≡ (user_of_payload p, w))
  unfolding get_current_user get_current_user_or_api_key starts_with
  opens now p w fresh =
      let read = sound.decode-encode (to_seconds now) p in
      let jwt = sound.encode-ne-api_key p in (ground (arith, read, jwt), ground (arith, read, jwt))

  -- Until it expires, a user's access token opens both dependencies as that user, with the role and
  -- the organization that the user had when the token was made.
  pub access_token_opens :
      (settings : Settings) (made now : ℕ) (u : User) (w : World)
      → to_seconds now ≤ to_seconds (made + seconds settings.access_token_ttl_seconds)
      → let user : CurrentUser = record {
        user_id = canonical u.id;
        email = u.email;
        name = u.name;
        org_id = canonical u.org_id;
        role = u.role;
        api_key_id = none;
      } in
        let header = some (bearer (create_access_token s settings made u)) in
        (get_current_user s now header w ≡ (ok user, w))
        × (get_current_user_or_api_key s now header w ≡ (ok user, w))
  unfolding create_access_token user_of_payload
  access_token_opens settings made now u w fresh =
      opens now (access_payload s settings made u) w fresh

  -- A refresh token opens them too, since nothing looks at its `type`: until it expires it stands for
  -- its user, with the role of a viewer and no organization.
  pub refresh_token_opens :
      (settings : Settings) (made now jti : ℕ) (u : User) (w : World)
      → to_seconds now ≤ to_seconds (made + seconds settings.refresh_token_ttl_seconds)
      → let user : CurrentUser = record {
        user_id = canonical u.id;
        email = [];
        name = [];
        org_id = malformed [];
        role = viewer;
        api_key_id = none;
      } in
        let header = some (bearer (create_refresh_token s settings made jti u).0) in
        (get_current_user s now header w ≡ (ok user, w))
        × (get_current_user_or_api_key s now header w ≡ (ok user, w))
  unfolding create_refresh_token user_of_payload
  refresh_token_opens settings made now jti u w fresh =
      opens now (refresh_payload s settings made jti u) w fresh

  -- A token of the service that has expired opens neither.
  pub expired_token_refused :
      (now : ℕ) (p : Payload) (w : World)
      → p.exp < to_seconds now
      → let header = some (bearer (s.encode p)) in
        let refusal : Result CurrentUser =
          err (app_error unauthorized "Invalid or expired token") in
        (get_current_user s now header w ≡ (refusal, w))
        × (get_current_user_or_api_key s now header w ≡ (refusal, w))
  unfolding get_current_user get_current_user_or_api_key starts_with
  expired_token_refused now p w late =
      let read = sound.decode-encode (to_seconds now) p in
      let jwt = sound.encode-ne-api_key p in (ground (arith, read, jwt), ground (arith, read, jwt))
