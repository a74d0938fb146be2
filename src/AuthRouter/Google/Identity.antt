-- ===== src/AuthRouter/Google/Identity.antt =====
-- backend/app/routers/auth.py: `verify_google_id_token`. The answers of Google's tokeninfo service
-- and of the google-auth library are arguments.
use ai_inference_platform.Prelude.{
  ℕ, zero, suc, ◌-◌, ◌≡◌, ◌≤◌, refl, Bool, true, false, not, ◌&&◌, ◌||◌, Option, none, some, [],
  ◌∷◌, ◌++◌, map, ◌+◌, arith, Text, text, text_eq, starts_with, length, leb, ◌==◌, if◌then◌else◌,
}
use ai_inference_platform.Errors.{Result, ok, err, app_error, validation}
use ai_inference_platform.Models.{User}
use ai_inference_platform.Session.{World}
use ai_inference_platform.Auth.{
  Services, Settings, create_access_token, create_refresh_token, user_by_email,
}
use ai_inference_platform.RefreshTokens.{store_active_refresh_token}
use ai_inference_platform.AuthRouter.{issue_tokens}
use ai_inference_platform.AuthRouter.Google.{GoogleIdentity, google_auth, google_sign_in, is_taken}
use ai_inference_platform.AuthRouter.Reset.{Draw}

-- `t.replace(pattern, "")`, for a pattern that is not empty: `skip` characters of a match are left.
unfoldable pub remove_from : (skip : ℕ) → (pattern t : Text) → Text
remove_from skip pattern [] = []
remove_from (suc skip) pattern (c ∷ t) = remove_from skip pattern t
remove_from zero pattern (c ∷ t) =
    let matched = remove_from (length pattern - 1) pattern t in
    let unmatched = remove_from 0 pattern t in
    if starts_with (c ∷ t) pattern then matched else c ∷ unmatched

unfoldable pub has_at : Text → Bool
has_at [] = false
has_at (c ∷ t) = let rest = has_at t in if c == b'@' then true else rest

-- `email.split("@")[0]`
unfoldable pub before_at : Text → Text
before_at [] = []
before_at (c ∷ t) = let rest = before_at t in if c == b'@' then [] else c ∷ rest

abbrev upper_letter : ℕ → ℕ
upper_letter c = if leb b'a' c && leb c b'z' then c - 32 else c

abbrev lower_letter : ℕ → ℕ
lower_letter c = if leb b'A' c && leb c b'Z' then c + 32 else c

unfoldable pub capitalize : Text → Text
capitalize [] = []
capitalize (c ∷ t) = upper_letter c ∷ map lower_letter t

-- Tokens that the developer's simulator stands for.
unfoldable pub is_simulated : (token : Text) → Bool
is_simulated token =
    starts_with token (text "google-id-") || starts_with token (text "mock-google-token-")

unfoldable pub simulated_email : (token : Text) → Text
simulated_email token =
    let email =
      remove_from 0 (text "google-id-") (remove_from 0 (text "mock-google-token-") token) in
    if has_at email then email else email ++ text "@gmail.com"

unfoldable pub simulated_identity : (token : Text) → GoogleIdentity
simulated_identity token =
    let email = simulated_email token in
    record {
      email = email;
      name = capitalize (before_at email);
      picture = some (text "https://api.dicebear.com/7.x/adventurer/svg?seed=" ++ email);
      sub = text "google-sub-" ++ email;
    }

-- The claims of Google about a token, each of which may be missing.
pub record Idinfo : Type 0 where
  pub iss : Option Text
  pub aud : Option Text
  pub email : Option Text
  pub name : Option Text
  pub picture : Option Text
  pub sub : Option Text

abbrev pub is_text : Option Text → Text → Bool
is_text none t = false
is_text (some s) t = text_eq s t

abbrev pub name_or : Option Text → Text → Text
name_or none default = default
name_or (some name) default = name

-- A missing address or id raises a `KeyError`.
unfoldable pub identity_of : Idinfo → Option GoogleIdentity
identity_of info = elim info.email [
  | none ↦ none
  | some email ↦ elim info.sub [
    | none ↦ none
    | some sub ↦ some (record {
      email = email;
      name = name_or info.name (capitalize (before_at email));
      picture = info.picture;
      sub = sub;
    })
  ]
]

-- The audience is checked if a client id is configured.
abbrev pub is_foreign : (client_id : Option Text) → Idinfo → Bool
is_foreign none info = false
is_foreign (some []) info = false
is_foreign (some (c ∷ t)) info = not (is_text info.aud (c ∷ t))

abbrev pub is_google : Idinfo → Bool
is_google info =
    is_text info.iss (text "accounts.google.com")
    || is_text info.iss (text "https://accounts.google.com")

-- The local library, where it is installed, with the claims that it finds or none if it raises.
unfoldable pub by_library : Option (Option Idinfo) → Result GoogleIdentity
by_library none =
    err (app_error validation "Google ID token verification failed (unreachable/invalid).")
by_library (some none) = err (app_error validation "Invalid Google Identity token signature.")
by_library (some (some info)) = elim (identity_of info) [
  | none ↦ err (app_error validation "Invalid Google Identity token signature.")
  | some g ↦ ok g
]

-- The tokeninfo service: its claims, or none if it does not answer with 200.
unfoldable pub by_tokeninfo :
    (client_id : Option Text) → Option Idinfo → Option (Option Idinfo) → Result GoogleIdentity
by_tokeninfo client_id none library = by_library library
by_tokeninfo client_id (some info) library =
    if not (is_google info)
    then err (app_error validation "Invalid token issuer.")
    else if is_foreign client_id info
    then err (app_error validation "Token audience mismatch.")
    else elim (identity_of info) [ none ↦ by_library library | some g ↦ ok g ]

unfoldable pub verify_google_id_token :
    (client_id : Option Text) (tokeninfo : Text → Option Idinfo)
    (library : Text → Option (Option Idinfo)) (token : Text)
    → Result GoogleIdentity
verify_google_id_token client_id tokeninfo library token =
    if is_simulated token
    then ok (simulated_identity token)
    else by_tokeninfo client_id (tokeninfo token) (library token)

abbrev pub contains : (pattern t : Text) → Bool
contains pattern [] = false
contains pattern (c ∷ t) = starts_with (c ∷ t) pattern || contains pattern t

remove_from-missing : (pattern t : Text) → contains pattern t ≡ false → remove_from 0 pattern t ≡ t
unfolding remove_from
remove_from-missing pattern [] missing = refl
remove_from-missing pattern (c ∷ t) missing = ground (arith, missing, remove_from-missing pattern t)

simulated_email-of :
    (email : Text)
    → has_at email ≡ true
    → contains (text "google-id-") email ≡ false
    → contains (text "mock-google-token-") email ≡ false
    → simulated_email (text "google-id-" ++ email) ≡ email
unfolding simulated_email remove_from starts_with
simulated_email-of email at plain plain' =
    rw
      (
        remove_from-missing (text "mock-google-token-") email plain',
        remove_from-missing (text "google-id-") email plain,
        at,
      )
      refl

module _ (s : Services) (settings : Settings) where
  -- Whatever Google says, and with whatever client id: the prefix of the simulator and the address of
  -- a verified account, which itself has no prefix of the simulator in it, make up a token that signs
  -- in as the account. No other account has the Google id that the token stands for, and the address
  -- has at most 244 characters.
  pub simulated_token_signs_in :
      (client_id : Option Text) (tokeninfo : Text → Option Idinfo)
      (library : Text → Option (Option Idinfo)) (email : Text) (d : Draw) (now id org_id jti : ℕ)
      (hex : Text) (org_name : Option Text) (w : World) (u : User)
      → has_at email ≡ true
      → contains (text "google-id-") email ≡ false
      → contains (text "mock-google-token-") email ≡ false
      → user_by_email email w.db ≡ some u
      → u.is_verified ≡ true
      → length email ≤ 244
      → is_taken (text "google-sub-" ++ email) u w.db.users ≡ false
      → (google_auth s settings d now id org_id jti hex
          (verify_google_id_token client_id tokeninfo library (text "google-id-" ++ email))
          org_name
          w).0
        ≡ ok (record {
          access_token = create_access_token s settings now u;
          user_name = u.name;
          user_email = u.email;
          requires_otp = false;
          verification_token = none;
          refresh_cookie = some (create_refresh_token s settings now jti u).0;
        })
  unfolding google_auth google_sign_in verify_google_id_token simulated_identity issue_tokens
      store_active_refresh_token create_refresh_token
  simulated_token_signs_in client_id tokeninfo library email d now id org_id jti hex org_name w u at
        plain plain' account known short free =
      let token = text "google-id-" ++ email in
      let simulated : is_simulated token ≡ true = unfold is_simulated starts_with in refl in
      let spelt = simulated_email-of email at plain plain' in
      ground (arith, simulated, spelt, account, known, short, free)
