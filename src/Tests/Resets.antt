-- ===== src/Tests/Resets.antt =====
-- An example of the reset of a password.
use ai_inference_platform.Prelude.{
  ℕ, ◌≡◌, refl, true, false, none, some, [], ◌∷◌, text, text_eq, arith, find, ◌==◌, lower, lstrip,
  rstrip, strip,
}
use ai_inference_platform.Errors.{ok}
use ai_inference_platform.Ids.{UuidText, canonical}
use ai_inference_platform.Models.{User, Otp, empty_db, viewer, local, forgot_password, purpose_eq}
use ai_inference_platform.Session.{World}
use ai_inference_platform.Otp.{latest, is_for, clean_email}
use ai_inference_platform.Auth.{create_reset_token, user_by_email}
use ai_inference_platform.RefreshTokens.{is_active_in}
use ai_inference_platform.AuthRouter.Reset.{reset_password, reset_otp}
use ai_inference_platform.AuthRouter.Reset.Passwords.{renewed, reset_with_verified_code}
use ai_inference_platform.Tests.Tokens.{services, services-IsSound, settings}

abbrev ada : User
ada = record {
  id = 1;
  org_id = 9;
  name = text "Ada";
  email = text "ada@example.org";
  password_hash = some (text "forgotten");
  google_id = none;
  profile_picture = none;
  auth_provider = local;
  role = viewer;
  is_active = true;
  is_verified = true;
  password_set = true;
  last_login_at = none;
}

abbrev verified_code : Otp
verified_code = record {
  id = 3;
  email = text "ada@example.org";
  otp_hash = text "123456";
  purpose = forgot_password;
  expires_at = 300000000;
  attempts = 1;
  verified = true;
  created_at = 0;
}

abbrev world : World
world = record {
  committed = empty_db;
  db = record empty_db { users = ada ∷ []; otps = verified_code ∷ [] };
  redis = record { user_id = canonical 1; jti = canonical 5; expires_at = 604800000000 } ∷ [];
  outbox = [];
}

reset_with_verified_code_example :
    let (r, w') =
      reset_password services settings 1000000 1000000 1000000
        (text "salt")
        (text "ada@example.org")
        none
        (some (create_reset_token services 0 (text "ada@example.org")))
        (text "secret")
        world in
    (r ≡ ok tt)
    × (user_by_email (text "ada@example.org") w'.db
        ≡ some (renewed services settings (text "salt") (text "secret") ada))
    × (find (λ x. x.id == 3) w'.db.otps ≡ none)
    × ((at : ℕ) (j : UuidText) → is_active_in at (canonical 1) j w'.redis ≡ false)
reset_with_verified_code_example =
    reset_with_verified_code services settings 0 1000000 1000000 1000000 (text "salt")
      (text "ada@example.org") none (text "secret") world ada verified_code services-IsSound
      (omega arith) (unfold user_by_email text_eq in refl) refl
      (unfold reset_otp latest is_for clean_email strip lstrip rstrip lower purpose_eq text_eq in
        refl)
      refl refl (omega arith)
