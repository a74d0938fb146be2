-- ===== src/AuthRouter/Reset/Passwords.antt =====
-- What a reset with a verified code does.
use ai_inference_platform.Prelude.{
  ℕ, ◌+◌, ◌≤◌, ◌≡◌, refl, Bool, true, false, not, Option, none, some, List, [], ◌∷◌, arith, Text,
  text, text_eq, text_eq_iff, select, update_where, find, ◌==◌, ==_iff, Bool-cases, inl, inr,
}
use ai_inference_platform.Errors.{ok}
use ai_inference_platform.Ids.{UuidText, canonical, uuid_text_eq_iff}
use ai_inference_platform.Models.{User, Otp}
use ai_inference_platform.Session.{World}
use ai_inference_platform.Auth.{
  Services, Settings, IsSound, reset_payload, create_reset_token, hash_password, user_by_email,
  decode_token, to_seconds, seconds,
}
use ai_inference_platform.RefreshTokens.{is_active_in, revoke_all_user_refresh_tokens}
use ai_inference_platform.RefreshTokens.Rotation.{active-revoke_all}
use ai_inference_platform.AuthRouter.Refresh.Sessions.{cookie_text-encode, decode_token-encode}
use ai_inference_platform.AuthRouter.Reset.{
  check_claims, reset_otp, reload, verified_user, verify_on_the_fly, set_new_password, reset_for,
  reset_password,
}

-- A row that is found is still found after it has been changed, if the change keeps the test.
find-update :
    (p : User → Bool) (f : User → User) (us : List User) (u : User)
    → ((v : User) → p (f v) ≡ p v)
    → find p us ≡ some u
    → find p (update_where (λ v. v.id == u.id) f us) ≡ some (f u)
find-update p f [] u keeps found = cc
find-update p f (v ∷ us) u keeps found = elim (Bool-cases (p v)) [
  | inl here ↦
      let same : v ≡ u = ground (arith, found, here) in
      let self : (u.id == u.id) ≡ true = (==_iff u.id u.id).1 refl in
      let kept : p (f u) ≡ true = ground (arith, keeps u, here, same) in rw (same, self, kept) refl
  | inr there ↦
      let found' : find p us ≡ some u = ground (arith, found, there) in
      ground (arith, keeps v, there, find-update p f us u keeps found')
]

select-absent :
    (id : ℕ) (os : List Otp) → find (λ o. o.id == id) (select (λ o. not (o.id == id)) os) ≡ none
select-absent id [] = refl
select-absent id (o ∷ os) = ground (arith, select-absent id os)

ended :
    (at id : ℕ) (j : UuidText) (w : World)
    → is_active_in at (canonical id) j (revoke_all_user_refresh_tokens (canonical id) w).1.redis
      ≡ false
ended at id j w = ground (
  arith,
  active-revoke_all at (canonical id) (canonical id) j w,
  uuid_text_eq_iff (canonical id) (canonical id),
)

module _ (s : Services) (settings : Settings) where
  -- The row of the account with the new password.
  abbrev pub renewed : (salt new_password : Text) → User → User
  renewed salt new_password u = record u {
    password_hash = some (hash_password s salt new_password);
    password_set = true;
  }

  reset_claims :
      (made now : ℕ) (email : Text)
      → IsSound s
      → to_seconds now ≤ to_seconds (made + seconds 300)
      → check_claims
          (text "password_reset")
          "Invalid or expired reset token: "
          "Invalid reset token purpose"
          "Reset token email mismatch"
          email
          (decode_token s now (s.encode (reset_payload s made email)))
        ≡ ok tt
  unfolding check_claims text_eq
  reset_claims made now email sound fresh =
      rw (decode_token-encode s settings now (reset_payload s made email) sound fresh)
        (ground (arith, text_eq_iff email email))

  reset_verified :
      (verified_at checked_at : ℕ) (salt email : Text) (code : Option Text) (new_password : Text)
      (w : World) (u : User) (o : Otp)
      → u.is_verified ≡ true
      → reset_otp email w.db ≡ some o
      → reload s settings o w.db ≡ some o
      → o.verified ≡ true
      → checked_at ≤ o.expires_at
      → reset_for s settings verified_at checked_at salt email code new_password
          (verified_user (some u))
          w
        ≡ set_new_password s settings salt new_password u o w
  unfolding reset_for verify_on_the_fly
  reset_verified verified_at checked_at salt email code new_password w u o known found same verified
        fresh =
      ground (arith, known, found, same, verified)

  after_reset :
      (salt email new_password : Text) (w : World) (u : User) (o : Otp)
      → user_by_email email w.db ≡ some u
      → let (r, w') = set_new_password s settings salt new_password u o w in
        (r ≡ ok tt)
        × (user_by_email email w'.db ≡ some (renewed salt new_password u))
        × (find (λ x. x.id == o.id) w'.db.otps ≡ none)
        × ((at : ℕ) (j : UuidText) → is_active_in at (canonical u.id) j w'.redis ≡ false)
  unfolding set_new_password user_by_email revoke_all_user_refresh_tokens
  after_reset salt email new_password w u o account = (
    refl,
    find-update (λ v. text_eq v.email email) (renewed salt new_password) w.db.users u (λ v. refl)
        account,
    select-absent o.id w.db.otps,
    λ at j. ended at u.id j w,
  )

  -- The reset token of an address, within its five minutes, and a code for the address that has been
  -- verified and has not expired reset the password of its verified account, whatever code the
  -- request gives, or none: the account has the new password, the code is gone, and every session of
  -- the account has ended.
  pub reset_with_verified_code :
      (made now verified_at checked_at : ℕ) (salt email : Text) (code : Option Text)
      (new_password : Text) (w : World) (u : User) (o : Otp)
      → IsSound s
      → to_seconds now ≤ to_seconds (made + seconds 300)
      → user_by_email email w.db ≡ some u
      → u.is_verified ≡ true
      → reset_otp email w.db ≡ some o
      → reload s settings o w.db ≡ some o
      → o.verified ≡ true
      → checked_at ≤ o.expires_at
      → let (r, w') =
          reset_password s settings now verified_at checked_at salt email code
            (some (create_reset_token s made email))
            new_password
            w in
        (r ≡ ok tt)
        × (user_by_email email w'.db ≡ some (renewed salt new_password u))
        × (find (λ x. x.id == o.id) w'.db.otps ≡ none)
        × ((at : ℕ) (j : UuidText) → is_active_in at (canonical u.id) j w'.redis ≡ false)
  unfolding reset_password create_reset_token
  reset_with_verified_code made now verified_at checked_at salt email code new_password w u o sound
        fresh account known found same verified in_time =
      rw
        (
          cookie_text-encode s settings (reset_payload s made email) sound,
          reset_claims made now email sound fresh,
          account,
          reset_verified verified_at checked_at salt email code new_password w u o known found same
              verified in_time,
        )
        (after_reset salt email new_password w u o account)
