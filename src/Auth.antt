-- ===== src/Auth.antt =====
-- backend/app/services/auth_service.py: passwords, signed tokens, and the authentication of a user.
--
-- bcrypt, python-jose and SHA-256 are the fields of `Services`. Random values (ids, the salt, the
-- hex digits of a key) and the readings of the clock are arguments. Times are in microseconds; the
-- `exp` of a token is in seconds, as python-jose writes it.
use ai_inference_platform.Prelude.{
  ℕ, ◌+◌, ◌*◌, ◌/◌, Bool, true, false, not, Option, none, some, [], Text, text, starts_with,
  text_eq, find, length, ltb, if◌then◌else◌, ◌≡◌, ◌≢◌,
}
use ai_inference_platform.Errors.{
  Result, ok, err, app_error, unhandled, unauthorized, invalid_credentials, attribute_error,
}
use ai_inference_platform.Ids.{UuidText, canonical}
use ai_inference_platform.Models.{Db, User, Role}
use ai_inference_platform.Session.{Action, pure, lift, query, raise_if, or_raise, ◌>>=◌, ◌>>◌}

-- The claims of a token, each of which may be missing.
pub record Payload : Type 0 where
  pub sub : Option UuidText
  pub email : Option Text
  pub name : Option Text
  pub org_id : Option UuidText
  pub role : Option Role
  pub jti : Option UuidText
  pub type : Option Text
  pub purpose : Option Text
  pub google_id : Option Text
  pub exp : ℕ

-- `jwt.encode` and `jwt.decode` with the secret key; `decode` is given the time in seconds, and
-- answers nothing where it raises a `JWTError`.
pub record Services : Type 0 where
  pub sha256 : Text → Text
  pub hashpw : (salt password : Text) → Text
  pub checkpw : (password hashed : Text) → Bool
  pub encode : Payload → Text
  pub decode : (seconds : ℕ) → Text → Option Payload

-- What the code relies on: bcrypt accepts the password that was hashed and a token decodes to its
-- claims until it has expired; it is not empty, and not what could be taken for an API key.
pub record IsSound (s : Services) : Type 0 where
  pub checkpw-hashpw : (salt password : Text) → s.checkpw password (s.hashpw salt password) ≡ true
  pub decode-encode :
      (seconds : ℕ) (p : Payload)
      → s.decode seconds (s.encode p) ≡ (if ltb p.exp seconds then none else some p)
  pub encode-ne-api_key : (p : Payload) → starts_with (s.encode p) (text "sk-") ≡ false
  pub encode-ne-nil : (p : Payload) → s.encode p ≢ []

pub record Settings : Type 0 where
  pub access_token_ttl_seconds : ℕ
  pub refresh_token_ttl_seconds : ℕ

abbrev pub no_claims : Payload
no_claims = record {
  sub = none;
  email = none;
  name = none;
  org_id = none;
  role = none;
  jti = none;
  type = none;
  purpose = none;
  google_id = none;
  exp = 0;
}

-- The `exp` of a time in microseconds.
abbrev pub to_seconds : ℕ → ℕ
to_seconds t = t / 1000000

abbrev pub seconds : ℕ → ℕ
seconds n = n * 1000000

-- The row of the address, if any; addresses are unique.
unfoldable pub user_by_email : Text → Db → Option User
user_by_email email db = find (λ u. text_eq u.email email) db.users

unfoldable pub count_users : Action ℕ
count_users = query (λ db. length db.users)

module _ (s : Services) where
  unfoldable pub hash_password : (salt password : Text) → Text
  hash_password salt password = s.hashpw salt password

  -- A user without a password has `None` here, which has no `encode`.
  unfoldable pub verify_password : (plain : Text) (hashed : Option Text) → Result Bool
  verify_password plain none = err (unhandled attribute_error)
  verify_password plain (some hashed) = ok (s.checkpw plain hashed)

  unfoldable pub access_payload : Settings → (now : ℕ) → User → Payload
  access_payload settings now user = record no_claims {
    sub = some (canonical user.id);
    email = some user.email;
    name = some user.name;
    org_id = some (canonical user.org_id);
    role = some user.role;
    exp = to_seconds (now + seconds settings.access_token_ttl_seconds);
  }

  unfoldable pub create_access_token : Settings → (now : ℕ) → User → Text
  unfolding access_payload
  create_access_token settings now user = s.encode (access_payload settings now user)

  unfoldable pub refresh_payload : Settings → (now jti : ℕ) → User → Payload
  refresh_payload settings now jti user = record no_claims {
    sub = some (canonical user.id);
    jti = some (canonical jti);
    type = some (text "refresh");
    exp = to_seconds (now + seconds settings.refresh_token_ttl_seconds);
  }

  unfoldable pub create_refresh_token : Settings → (now jti : ℕ) → User → Text × UuidText
  unfolding refresh_payload
  create_refresh_token settings now jti user =
      (s.encode (refresh_payload settings now jti user), canonical jti)

  unfoldable pub decode_token : (now : ℕ) → Text → Result Payload
  decode_token now token = elim (s.decode (to_seconds now) token) [
    | none ↦ err (app_error unauthorized "Invalid or expired token")
    | some payload ↦ ok payload
  ]

  -- Google registration: the e-mail address, the name and the Google id, for five minutes.
  unfoldable pub create_verification_token : (now : ℕ) → (email name google_id : Text) → Text
  create_verification_token now email name google_id = s.encode (record no_claims {
    email = some email;
    name = some name;
    google_id = some google_id;
    purpose = some (text "google_registration");
    exp = to_seconds (now + seconds 300);
  })

  abbrev pub reset_payload : (now : ℕ) → (email : Text) → Payload
  reset_payload now email = record no_claims {
    email = some email;
    purpose = some (text "password_reset");
    exp = to_seconds (now + seconds 300);
  }

  unfoldable pub create_reset_token : (now : ℕ) → (email : Text) → Text
  create_reset_token now email = s.encode (reset_payload now email)

  unfoldable pub authenticate_user : (email password : Text) → Action User
  authenticate_user email password = do
    found ← query (user_by_email email)
    user ← or_raise found (app_error invalid_credentials "Invalid email or password")
    matches ← lift (verify_password password user.password_hash)
    raise_if (not matches) (app_error invalid_credentials "Invalid email or password")
    raise_if (not user.is_active) (app_error unauthorized "Account is deactivated")
    pure user
