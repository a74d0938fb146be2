-- ===== src/Journeys.antt =====
-- The parts together: backend/app/routers/auth.py, backend/app/dependencies/auth.py and
-- backend/app/routers/inference.py on the way of a newcomer from the registration to an answer.
pub mod Rows
use ai_inference_platform.Prelude.{
  ℕ, ◌+◌, ◌≤◌, ◌≡◌, refl, sym, ap, ◌∙◌, Bool, true, false, Option, none, some, List, [], ◌∷◌, ◌++◌,
  Text, text, text_eq, arith, length, find, ◌==◌, if◌then◌else◌, Option-cases, Bool-cases, inl, inr,
}
use ai_inference_platform.Errors.{Result, ok, err, Result-cases}
use ai_inference_platform.Ids.{canonical}
use ai_inference_platform.Models.{Org, User}
use ai_inference_platform.Session.{World, with_db}
use ai_inference_platform.Orgs.{
  org_by_slug, insert_org, or_insert, new_org, or_random_slug, slugify, get_or_create_default_org,
  get_or_create_custom_org,
}
use ai_inference_platform.Auth.{
  Services, Settings, IsSound, user_by_email, create_access_token, to_seconds, seconds,
}
use ai_inference_platform.RefreshTokens.{any, store_active_refresh_token}
use ai_inference_platform.AuthRouter.{TokenResponse, issue_tokens}
use ai_inference_platform.AuthRouter.Register.{
  RegisterRequest, org_for, local_user, insert_user, register,
}
use ai_inference_platform.AuthRouter.Accounts.{org_for-users, insert_user-found, finish-result}
use ai_inference_platform.Admission.{Slots}
use ai_inference_platform.RateLimit.{Buckets}
use ai_inference_platform.CurrentUser.{CurrentUser, get_current_user_or_api_key}
use ai_inference_platform.CurrentUser.Bearer.{bearer, access_token_opens}
use ai_inference_platform.Completions.{ChatCompletionRequest, Surroundings, State, chat_completions}
use ai_inference_platform.Completions.Rows.{Caller, IsBillable}
use ai_inference_platform.Completions.Billing.{IsBilled, AreSmall, chat_completions-bills}
use ai_inference_platform.Journeys.Rows.{find-any, org_for-known, insert_user-orgs}

abbrev user_id_of : User → ℕ
user_id_of u = u.id

module _ (s : Services) (settings : Settings) where
  -- What a registration that succeeds leaves: the account, its organization, and an access token.
  register-leaves :
      (now id org_id jti : ℕ) (hex salt : Text) (req : RegisterRequest) (w : World)
      (r : TokenResponse) (org : Org) (is_new : Bool)
      → (org_for org_id hex req.org_name w).0 ≡ ok (org, is_new)
      → (register s settings now id org_id jti hex salt req w).0 ≡ ok r
      → let u = local_user s settings id salt req (org, is_new) in
        let w' = (register s settings now id org_id jti hex salt req w).1 in
        (user_by_email req.email w'.db ≡ some u)
        × (r.access_token ≡ create_access_token s settings now u)
        × (w'.db.orgs ≡ (org_for org_id hex req.org_name w).1.db.orgs)
  unfolding register issue_tokens store_active_refresh_token
  register-leaves now id org_id jti hex salt req w r org is_new given got =
      elim (Option-cases (user_by_email req.email w.db)) [
        | inr (u, taken) ↦ absurd (ground (arith, got, taken))
        | inl missing ↦
            let w₁ = (org_for org_id hex req.org_name w).1 in
            let u = local_user s settings id salt req (org, is_new) in
            let missing' : user_by_email u.email w₁.db ≡ none =
              unfold local_user user_by_email in
              rw (org_for-users org_id hex req.org_name w) missing in
            elim (Result-cases (insert_user u w₁).0) [
              | inl (e, failed) ↦ absurd (ground (arith, got, missing, given, failed))
              | inr (tt, inserted) ↦
                  let here : user_by_email req.email (insert_user u w₁).1.db ≡ some u =
                    unfold local_user in insert_user-found u w₁ inserted missing' in
                  (
                    ground (arith, missing, given, inserted, here),
                    ground (arith, got, missing, given, inserted),
                    ground (arith, missing, given, inserted, insert_user-orgs u w₁),
                  )
            ]
      ]

  -- The newcomer as the dependencies see the account.
  abbrev pub newcomer : (id : ℕ) → RegisterRequest → Org → Bool → CurrentUser
  newcomer id req org is_new =
      let u = local_user s settings id [] req (org, is_new) in
      record {
        user_id = canonical u.id;
        email = u.email;
        name = u.name;
        org_id = canonical u.org_id;
        role = u.role;
        api_key_id = none;
      }

  abbrev pub after_registering :
      (now id org_id jti : ℕ) (hex salt : Text) (req : RegisterRequest) (w : World) → World
  after_registering now id org_id jti hex salt req w =
      (with_db (register s settings now id org_id jti hex salt req) w).1

  registered-knows :
      (now id org_id jti : ℕ) (hex salt : Text) (req : RegisterRequest) (w : World)
      (r : TokenResponse) (org : Org) (is_new : Bool)
      → (org_for org_id hex req.org_name (record w { db = w.committed })).0 ≡ ok (org, is_new)
      → (with_db (register s settings now id org_id jti hex salt req) w).0 ≡ ok r
      → let db = (after_registering now id org_id jti hex salt req w).committed in
        (r.access_token
          ≡ create_access_token s settings now (local_user s settings id salt req (org, is_new)))
        × (any (λ o. o.id == org.id) db.orgs ≡ true)
        × (any (λ v. v.id == id) db.users ≡ true)
  unfolding with_db
  registered-knows now id org_id jti hex salt req w r org is_new given got =
      let begun = record w { db = w.committed } in
      let m = register s settings now id org_id jti hex salt req begun in
      let done : m.0 ≡ ok r = sym (finish-result m.0 m.1) ∙ got in
      let (account, token, same) =
        register-leaves now id org_id jti hex salt req begun r org is_new given done in
      let known = org_for-known org_id hex req.org_name begun org is_new given in
      let u = local_user s settings id salt req (org, is_new) in
      let there : any (λ v. v.id == id) m.1.db.users ≡ true =
        unfold local_user in
        find-any user_id_of (λ v. text_eq v.email req.email) m.1.db.users u
          (unfold user_by_email in account) in
      (token, ground (arith, done, same, known), ground (arith, done, there))

  -- The access token that a registration answers with opens the service, until it expires, as the new
  -- account in its organization; and a request for a completion by it changes the database only by the
  -- rows of the usage log that are due for what the client got, in the name of the account and the
  -- organization, and gives its slot back; if the name of the model and the id of the request fit their
  -- columns, and the tokens theirs.
  pub newcomer-IsBilled :
      (now id org_id jti : ℕ) (hex salt : Text) (req : RegisterRequest) (w : World)
      (r : TokenResponse) (org : Org) (is_new : Bool) (now' : ℕ) (env : Surroundings)
      (ask : ChatCompletionRequest) (slots : Slots) (buckets : Buckets)
      → IsSound s
      → (org_for org_id hex req.org_name (record w { db = w.committed })).0 ≡ ok (org, is_new)
      → (with_db (register s settings now id org_id jti hex salt req) w).0 ≡ ok r
      → to_seconds now' ≤ to_seconds (now + seconds settings.access_token_ttl_seconds)
      → length ask.model ≤ 100
      → length env.request_id ≤ 36
      → let w' = after_registering now id org_id jti hex salt req w in
        let user = newcomer id req org is_new in
        let st : State = record { world = w'; slots = slots; buckets = buckets } in
        AreSmall (chat_completions env user ask st).0
        → (get_current_user_or_api_key s now' (some (bearer r.access_token)) w' ≡ (ok user, w'))
          × IsBilled
              (record { org = org.id; user = id; key = none })
              env
              user
              ask
              st
              (chat_completions env user ask st)
  newcomer-IsBilled now id org_id jti hex salt req w r org is_new now' env ask slots buckets sound
        given got fresh brief named small =
      let w' = after_registering now id org_id jti hex salt req w in
      let user = newcomer id req org is_new in
      let st : State = record { world = w'; slots = slots; buckets = buckets } in
      let u = local_user s settings id salt req (org, is_new) in
      let (token, org_known, user_known) =
        registered-knows now id org_id jti hex salt req w r org is_new given got in
      let opened : get_current_user_or_api_key s now'
            (some (bearer (create_access_token s settings now u))) w'
          ≡ (ok user, w') =
        unfold local_user in (access_token_opens s sound settings now now' u w' fresh).1 in
      (
        rw token opened,
        chat_completions-bills (record { org = org.id; user = id; key = none }) env user ask st
            (record {
              org_id = unfold local_user in refl;
              user_id = unfold local_user in refl;
              api_key_id = refl;
              model = brief;
              request = named;
              org_known = org_known;
              user_known = user_known;
              key_known = refl;
            })
            small,
      )
