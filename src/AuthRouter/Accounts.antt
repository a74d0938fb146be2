-- ===== src/AuthRouter/Accounts.antt =====
-- backend/app/routers/auth.py: the account that a registration leaves.
use ai_inference_platform.Prelude.{
  ℕ, ◌≤◌, ◌≡◌, ◌∙◌, sym, refl, Bool, true, false, Option, none, some, List, [], ◌∷◌, ◌++◌, arith,
  Text, text, text_eq, text_eq_iff, length, find, Option-cases, inl, inr,
}
use ai_inference_platform.Errors.{Result, ok, err, app_error, validation, Result-cases}
use ai_inference_platform.Models.{User, Org}
use ai_inference_platform.Session.{World, with_db, finish}
use ai_inference_platform.Orgs.{
  org_by_slug, insert_org, or_insert, or_random_slug, slugify, get_or_create_default_org,
  get_or_create_custom_org,
}
use ai_inference_platform.Auth.{Services, Settings, IsSound, hash_password, user_by_email}
use ai_inference_platform.RefreshTokens.{store_active_refresh_token}
use ai_inference_platform.AuthRouter.{TokenResponse, issue_tokens, login}
use ai_inference_platform.AuthRouter.Login.{is_ok, login_iff}
use ai_inference_platform.AuthRouter.Register.{
  RegisterRequest, org_for, local_user, insert_user, user_clashes, register,
}

find_added :
    (us : List User) (u : User)
    → find (λ v. text_eq v.email u.email) us ≡ none
    → find (λ v. text_eq v.email u.email) (us ++ u ∷ []) ≡ some u
find_added [] u missing = ground (arith, text_eq_iff u.email u.email)
find_added (v ∷ us) u missing = ground (arith, find_added us u, missing)

-- A user without a Google id clashes with another by the address only.
no_clash :
    (u : User) (us : List User)
    → u.google_id ≡ none
    → find (λ v. text_eq v.email u.email) us ≡ none
    → user_clashes u us ≡ false
unfolding user_clashes
no_clash u [] local missing = refl
no_clash u (v ∷ us) local missing = ground (arith, no_clash u us, local, missing)

-- A user with a new address is added, and found by it.
pub insert_user-new :
    (u : User) (w : World)
    → length u.name ≤ 100
    → length u.email ≤ 255
    → u.google_id ≡ none
    → user_by_email u.email w.db ≡ none
    → ((insert_user u w).0 ≡ ok tt) × (user_by_email u.email (insert_user u w).1.db ≡ some u)
unfolding insert_user user_by_email
insert_user-new u w short brief local missing = (
  ground (arith, no_clash u w.db.users local missing),
  ground (arith, no_clash u w.db.users local missing, find_added w.db.users u missing),
)

pub default_org-users :
    (id : ℕ) (w : World) → (get_or_create_default_org id w).1.db.users ≡ w.db.users
unfolding get_or_create_default_org insert_org or_insert
default_org-users id w = elim (Option-cases (org_by_slug (text "default") w.db)) [
  | inl missing ↦ ground (arith, missing)
  | inr (org, found) ↦ ground (arith, found)
]

custom_org-users :
    (id : ℕ) (hex name : Text) (w : World)
    → (get_or_create_custom_org id hex name w).1.db.users ≡ w.db.users
unfolding get_or_create_custom_org insert_org or_insert
custom_org-users id hex name w =
    elim (Option-cases (org_by_slug (or_random_slug hex (slugify name)) w.db)) [
      | inl missing ↦ ground (arith, missing)
      | inr (org, found) ↦ ground (arith, found)
    ]

pub org_for-users :
    (id : ℕ) (hex : Text) (name : Option Text) (w : World)
    → (org_for id hex name w).1.db.users ≡ w.db.users
unfolding org_for
org_for-users id hex none w = ground (arith, default_org-users id w)
org_for-users id hex (some []) w = ground (arith, default_org-users id w)
org_for-users id hex (some (c ∷ t)) w = custom_org-users id hex (c ∷ t) w

pub insert_user-found :
    (u : User) (w : World)
    → (insert_user u w).0 ≡ ok tt
    → user_by_email u.email w.db ≡ none
    → user_by_email u.email (insert_user u w).1.db ≡ some u
unfolding insert_user user_by_email
insert_user-found u w inserted missing = ground (arith, inserted, find_added w.db.users u missing)

pub finish-result : {A : Type 0} (r : Result A) (w : World) → (finish r w).0 ≡ r
finish-result (ok a) w = refl
finish-result (err e) w = refl

module _ (s : Services) (settings : Settings) where
  -- What a registration that succeeds has done.
  register-ok :
      (now id org_id jti : ℕ) (hex salt : Text) (req : RegisterRequest) (w : World)
      (r : TokenResponse)
      → (register s settings now id org_id jti hex salt req w).0 ≡ ok r
      → (org : Org) × (is_new : Bool) × ((org_for org_id hex req.org_name w).0 ≡ ok (org, is_new))
        × (user_by_email req.email (register s settings now id org_id jti hex salt req w).1.db
            ≡ some (local_user s settings id salt req (org, is_new)))
  unfolding register issue_tokens store_active_refresh_token
  register-ok now id org_id jti hex salt req w r got =
      elim (Option-cases (user_by_email req.email w.db)) [
        | inr (u, taken) ↦ absurd (ground (arith, got, taken))
        | inl missing ↦ elim (Result-cases (org_for org_id hex req.org_name w).0) [
          | inl (e, failed) ↦ absurd (ground (arith, got, missing, failed))
          | inr ((org, is_new), given) ↦
              let w₁ = (org_for org_id hex req.org_name w).1 in
              let u = local_user s settings id salt req (org, is_new) in
              let missing' : user_by_email u.email w₁.db ≡ none =
                unfold local_user user_by_email in
                rw (org_for-users org_id hex req.org_name w) missing in
              elim (Result-cases (insert_user u w₁).0) [
                | inl (e, failed) ↦ absurd (ground (arith, got, missing, given, failed))
                | inr (tt, inserted) ↦
                    let here : user_by_email req.email (insert_user u w₁).1.db ≡ some u =
                      unfold local_user in insert_user-found u w₁ inserted missing' in
                    (org, is_new, given, ground (arith, missing, given, inserted, here))
              ]
        ]
      ]

  register-taken :
      (now id org_id jti : ℕ) (hex salt : Text) (req : RegisterRequest) (w : World) (u : User)
      → user_by_email req.email w.db ≡ some u
      → (register s settings now id org_id jti hex salt req w).0
        ≡ err (app_error validation "This email address is already registered.")
  unfolding register
  register-taken now id org_id jti hex salt req w u taken = rw taken refl

  -- The session around a registration that succeeds is committed.
  pub registered :
      (now id org_id jti : ℕ) (hex salt : Text) (req : RegisterRequest) (w : World)
      (r : TokenResponse)
      → (with_db (register s settings now id org_id jti hex salt req) w).0 ≡ ok r
      → (org : Org) × (is_new : Bool) × ((org_for org_id hex req.org_name
            (record w { db = w.committed })).0
          ≡ ok (org, is_new))
        × (user_by_email req.email
              (with_db (register s settings now id org_id jti hex salt req) w).1.committed
            ≡ some (local_user s settings id salt req (org, is_new)))
  unfolding with_db
  registered now id org_id jti hex salt req w r got =
      let begun = record w { db = w.committed } in
      let m = register s settings now id org_id jti hex salt req begun in
      let done : m.0 ≡ ok r = sym (finish-result m.0 m.1) ∙ got in
      let (org, is_new, given, here) = register-ok now id org_id jti hex salt req begun r done in
      (org, is_new, given, ground (arith, done, here))

  -- After a registration that succeeds, the user can log in with the address and the password of the
  -- registration, and another registration of the address is refused.
  pub registered_user_logs_in :
      (now id org_id jti : ℕ) (hex salt : Text) (req again : RegisterRequest) (w : World)
      (r : TokenResponse) (now' jti' id' org_id' : ℕ) (hex' salt' : Text)
      → IsSound s
      → again.email ≡ req.email
      → (with_db (register s settings now id org_id jti hex salt req) w).0 ≡ ok r
      → let w' = (with_db (register s settings now id org_id jti hex salt req) w).1 in
        (is_ok (with_db (login s settings now' jti' req.email req.password) w').0 ≡ true)
        × ((with_db (register s settings now' id' org_id' jti' hex' salt' again) w').0
            ≡ err (app_error validation "This email address is already registered."))
  unfolding with_db
  registered_user_logs_in now id org_id jti hex salt req again w r now' jti' id' org_id' hex' salt'
        sound same got =
      let (org, is_new, given, here) = registered now id org_id jti hex salt req w r got in
      let w' = (with_db (register s settings now id org_id jti hex salt req) w).1 in
      let begun = record w' { db = w'.committed } in
      let u = local_user s settings id salt req (org, is_new) in
      let m = login s settings now' jti' req.email req.password begun in
      let n = register s settings now' id' org_id' jti' hex' salt' again begun in
      (
        rw (finish-result m.0 m.1) (
            (login_iff s settings now' jti' req.email req.password begun u
                (s.hashpw salt req.password) here (unfold local_user hash_password in refl)).1
              (
                sound.checkpw-hashpw salt req.password,
                unfold local_user in refl,
                unfold local_user in refl,
              )),
        finish-result n.0 n.1
            ∙ register-taken now' id' org_id' jti' hex' salt' again begun u (rw same here),
      )
