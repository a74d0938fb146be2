-- ===== src/Tests/Registration.antt =====
-- Examples of registrations, and of the lifetimes of tokens and codes.
use ai_inference_platform.Prelude.{
  ℕ, ◌*◌, ◌≡◌, ◌⊎◌, refl, true, false, none, some, [], ◌∷◌, Text, text, arith,
}
use ai_inference_platform.Errors.{ok, err, app_error, validation}
use ai_inference_platform.Ids.{UuidText, canonical}
use ai_inference_platform.Models.{Org, User, viewer, org_admin, signup, empty_db}
use ai_inference_platform.Session.{empty_world, with_db}
use ai_inference_platform.Orgs.{
  org_by_slug, get_or_create_default_org, or_insert, insert_org, new_org,
}
use ai_inference_platform.Auth.{user_by_email}
use ai_inference_platform.RefreshTokens.{is_active_in, store_active_refresh_token}
use ai_inference_platform.AuthRouter.{TokenResponse, issue_tokens, login}
use ai_inference_platform.AuthRouter.Login.{is_ok}
use ai_inference_platform.AuthRouter.Register.{
  RegisterRequest, register, org_for, insert_user, user_clashes, local_user,
}
use ai_inference_platform.AuthRouter.Accounts.{registered_user_logs_in}
use ai_inference_platform.AuthRouter.Founders.{registered_role}
use ai_inference_platform.AuthRouter.Refresh.{refresh_token_endpoint, reuse_alert}
use ai_inference_platform.AuthRouter.Refresh.Sessions.{token_of}
use ai_inference_platform.AuthRouter.Refresh.Lifetimes.{unused_token_taken_for_reused}
use ai_inference_platform.Auth.{Settings}
use ai_inference_platform.Otp.{generate_otp_code}
use ai_inference_platform.Otp.Requests.{send}
use ai_inference_platform.Otp.Recovery.{Demand, send_all, code_after_a_pause}
use ai_inference_platform.Tests.Tokens.{services, services-IsSound, settings}
use ai_inference_platform.Tests.Service.{ada}

abbrev pub eve : RegisterRequest
eve = record { name = text "Eve"; email = text "eve@x.com"; password = text "pw"; org_name = none }

abbrev pub default_org : Org
default_org = new_org 2 (text "Default") (text "default")

abbrev pub answer : TokenResponse
answer =
    elim (issue_tokens services settings 1000 9
      (local_user services settings 1 (text "s") eve (default_org, false)) empty_world).0 [
        | ok r ↦ r
        | err e ↦ record {
          access_token = [];
          user_name = [];
          user_email = [];
          requires_otp = false;
          verification_token = none;
          refresh_cookie = none;
        }
      ]

pub registered_eve :
    (with_db (register services settings 1000 1 2 9 (text "0a") (text "s") eve) empty_world).0
    ≡ ok answer
unfolding with_db register user_by_email org_for get_or_create_default_org or_insert insert_org
    org_by_slug insert_user user_clashes local_user issue_tokens store_active_refresh_token
registered_eve = refl

registered_user_logs_in_example :
    let w' =
      (with_db (register services settings 1000 1 2 9 (text "0a") (text "s") eve) empty_world).1 in
    (is_ok (with_db (login services settings 5000 10 (text "eve@x.com") (text "pw")) w').0 ≡ true)
    × ((with_db (register services settings 5000 3 4 10 (text "0b") (text "t") eve) w').0
        ≡ err (app_error validation "This email address is already registered."))
registered_user_logs_in_example =
    registered_user_logs_in services settings 1000 1 2 9 (text "0a") (text "s") eve eve empty_world
      answer 5000 10 3 4 (text "0b") (text "t") services-IsSound refl registered_eve

registered_role_example :
    let w' =
      (with_db (register services settings 1000 1 2 9 (text "0a") (text "s") eve) empty_world).1 in
    (u : User) × (org : Org) × (user_by_email (text "eve@x.com") w'.committed ≡ some u)
    × (org_by_slug (text "default") w'.committed ≡ some org)
    × (u.org_id ≡ org.id)
    × (((u.role ≡ viewer)
          × ((org_by_slug (text "default") empty_db ≡ some org)
              ⊎ (text "default" ≡ text "default")))
        ⊎ ((u.role ≡ org_admin) × (org_by_slug (text "default") empty_db ≡ none)))
registered_role_example =
    registered_role services settings 1000 1 2 9 (text "0a") (text "s") eve empty_world answer
      registered_eve

-- Refresh tokens that have ten days.
abbrev ten_days : Settings
ten_days = record settings { refresh_token_ttl_seconds = 864000 }

unused_token_taken_for_reused_example :
    let w' = (issue_tokens services ten_days 0 5 ada empty_world).1 in
    let (r, w'') =
      refresh_token_endpoint services ten_days
        (8 * 86400000000)
        6
        (some (token_of services ten_days 0 5 ada))
        w' in
    (r ≡ err reuse_alert)
    × ((at : ℕ) (j : UuidText) → is_active_in at (canonical 3) j w''.redis ≡ false)
unused_token_taken_for_reused_example =
    unused_token_taken_for_reused services ten_days 0 5 (8 * 86400000000) 6 ada empty_world
      services-IsSound (omega arith) (omega arith)

abbrev sha256 : Text → Text
sha256 t = t

abbrev demand : Demand
demand = record {
  id = 1;
  digits = 1 ∷ 2 ∷ 3 ∷ 4 ∷ 5 ∷ 6 ∷ [];
  checked = 0;
  expiry_from = 0;
  created = 0;
  email = text "ada@x.com";
  purpose = signup;
}

abbrev later : Demand
later = record demand { id = 4; checked = 900000001; created = 900000001 }

code_after_a_pause_example :
    (send sha256 4 later.digits 900000001 0 900000001
      (text "ada@x.com")
      signup
      (send_all sha256 (demand ∷ demand ∷ demand ∷ demand ∷ []) empty_world)).0
    ≡ ok (generate_otp_code later.digits)
code_after_a_pause_example =
    code_after_a_pause sha256 (demand ∷ demand ∷ demand ∷ demand ∷ []) later 0 empty_world tt
      (omega arith, (omega arith, (omega arith, (omega arith, tt)))) (omega arith)
