-- ===== src/AuthRouter/Founders.antt =====
-- backend/app/routers/auth.py: the role and the organization that a registration gives.
use ai_inference_platform.Prelude.{
  ℕ, ◌≡◌, ◌⊎◌, ◌∙◌, sym, refl, ap, Bool, true, false, none, some, [], ◌∷◌, arith, Text, text,
  text_eq, text_eq_iff, find, List, Option, Option-cases, inl, inr,
}
use ai_inference_platform.Errors.{Result, ok, Result-cases}
use ai_inference_platform.Models.{Org, User, viewer, org_admin}
use ai_inference_platform.Session.{World, with_db, finish}
use ai_inference_platform.Orgs.{
  org_by_slug, insert_org, or_insert, or_random_slug, slugify, new_org, get_or_create_default_org,
  get_or_create_custom_org,
}
use ai_inference_platform.Orgs.Unique.{org_by_slug-insert}
use ai_inference_platform.Auth.{Services, Settings, user_by_email}
use ai_inference_platform.RefreshTokens.{store_active_refresh_token}
use ai_inference_platform.AuthRouter.{TokenResponse, issue_tokens}
use ai_inference_platform.AuthRouter.Register.{
  RegisterRequest, org_for, local_user, insert_user, register,
}
use ai_inference_platform.AuthRouter.Accounts.{registered, finish-result}

find-slug :
    (slug : Text) (os : List Org) (org : Org)
    → find (λ o. text_eq o.slug slug) os ≡ some org
    → org.slug ≡ slug
find-slug slug [] org found = absurd (ground (arith, found))
find-slug slug (o ∷ os) org found =
    ground (arith, found, text_eq_iff o.slug slug, find-slug slug os org)

-- The organization is the one of the slug, now and, if it is not new, before; if it is new, there was
-- none of the slug.
abbrev IsGiven : (slug : Text) → (w w' : World) → Org → Bool → Type 0
IsGiven slug w w' org is_new =
    (org.slug ≡ slug)
    × (org_by_slug slug w'.db ≡ some org)
    × (((is_new ≡ false) × (org_by_slug slug w.db ≡ some org))
        ⊎ ((is_new ≡ true) × (org_by_slug slug w.db ≡ none)))

or_insert-IsGiven :
    (new : Org) (w : World) (org : Org) (is_new : Bool)
    → (or_insert (org_by_slug new.slug w.db) new w).0 ≡ ok (org, is_new)
    → IsGiven new.slug w (or_insert (org_by_slug new.slug w.db) new w).1 org is_new
unfolding or_insert
or_insert-IsGiven new w org is_new got = elim (Option-cases (org_by_slug new.slug w.db)) [
  | inl missing ↦ elim (Result-cases (insert_org new w).0) [
    | inl (e, failed) ↦ absurd (ground (arith, got, missing, failed))
    | inr (tt, inserted) ↦
        let same : org ≡ new = ground (arith, got, missing, inserted) in
        let there = org_by_slug-insert new.slug new w missing refl inserted in
        (
          rw same refl,
          rw same (ground (arith, missing, inserted, there)),
          inr (ground (arith, got, missing, inserted), missing),
        )
  ]
  | inr (there, found) ↦
      let same : there ≡ org = ground (arith, got, found) in
      let its : org_by_slug new.slug w.db ≡ some org = rw same at found in
      let slug : org.slug ≡ new.slug = unfold org_by_slug in find-slug new.slug w.db.orgs org its in
      (slug, ground (arith, found, its), inl (ground (arith, got, found), its))
]

-- The slug that a registration asks for.
abbrev pub wanted_slug : (hex : Text) → Option Text → Text
wanted_slug hex none = text "default"
wanted_slug hex (some []) = text "default"
wanted_slug hex (some (c ∷ t)) = or_random_slug hex (slugify (c ∷ t))

-- The default organization is never new to a registration.
abbrev IsOrgOf : (slug : Text) → (w w' : World) → Org → Bool → Type 0
IsOrgOf slug w w' org is_new =
    (org.slug ≡ slug)
    × (org_by_slug slug w'.db ≡ some org)
    × (((is_new ≡ false) × ((org_by_slug slug w.db ≡ some org) ⊎ (slug ≡ text "default")))
        ⊎ ((is_new ≡ true) × (org_by_slug slug w.db ≡ none)))

default-IsOrgOf :
    (id : ℕ) (w : World) (org : Org)
    → (get_or_create_default_org id w).0 ≡ ok org
    → IsOrgOf (text "default") w (get_or_create_default_org id w).1 org false
unfolding get_or_create_default_org
default-IsOrgOf id w org got =
    let new = new_org id (text "Default") (text "default") in
    elim (Result-cases (or_insert (org_by_slug new.slug w.db) new w).0) [
      | inl (e, failed) ↦ absurd (ground (arith, got, failed))
      | inr ((org', is_new), given) ↦
          let same : org' ≡ org = ground (arith, got, given) in
          let (slug, there, before) = or_insert-IsGiven new w org' is_new given in
          (rw same at slug, ground (arith, given, there, same), inl (refl, inr refl))
    ]

org_for-none-IsOrgOf :
    (id : ℕ) (hex : Text) (w : World) (org : Org) (is_new : Bool)
    → (org_for id hex none w).0 ≡ ok (org, is_new)
    → IsOrgOf (text "default") w (org_for id hex none w).1 org is_new
unfolding org_for
org_for-none-IsOrgOf id hex w org is_new got =
    elim (Result-cases (get_or_create_default_org id w).0) [
      | inl (e, failed) ↦ absurd (ground (arith, got, failed))
      | inr (org', given) ↦
          let same : org' ≡ org = ground (arith, got, given) in
          let old : is_new ≡ false = ground (arith, got, given) in
          let (slug, there, before) = default-IsOrgOf id w org (rw same at given) in
          (slug, ground (arith, given, there), inl (old, inr refl))
    ]

org_for-IsOrgOf :
    (id : ℕ) (hex : Text) (name : Option Text) (w : World) (org : Org) (is_new : Bool)
    → (org_for id hex name w).0 ≡ ok (org, is_new)
    → IsOrgOf (wanted_slug hex name) w (org_for id hex name w).1 org is_new
unfolding org_for get_or_create_custom_org
org_for-IsOrgOf id hex none w org is_new got = org_for-none-IsOrgOf id hex w org is_new got
org_for-IsOrgOf id hex (some []) w org is_new got = org_for-none-IsOrgOf id hex w org is_new got
org_for-IsOrgOf id hex (some (c ∷ t)) w org is_new got =
    let new = new_org id (c ∷ t) (or_random_slug hex (slugify (c ∷ t))) in
    let (slug, there, before) = or_insert-IsGiven new w org is_new got in
    (
      slug,
      there,
      elim before [
        | inl (old, known) ↦ inl (old, inl known)
        | inr (founded, unknown) ↦ inr (founded, unknown)
      ],
    )

finish-orgs :
    {A : Type 0} (r : Result A) (a : A) (w : World)
    → r ≡ ok a
    → (finish r w).1.committed.orgs ≡ w.db.orgs
finish-orgs r a w done = rw done refl

module _ (s : Services) (settings : Settings) where
  -- After a registration has the organization, its session leaves the organizations alone.
  register-orgs :
      (now id org_id jti : ℕ) (hex salt : Text) (req : RegisterRequest) (w : World)
      (r : TokenResponse)
      → (register s settings now id org_id jti hex salt req w).0 ≡ ok r
      → (register s settings now id org_id jti hex salt req w).1.db.orgs
        ≡ (org_for org_id hex req.org_name w).1.db.orgs
  unfolding register insert_user issue_tokens store_active_refresh_token
  register-orgs now id org_id jti hex salt req w r got =
      elim (Option-cases (user_by_email req.email w.db)) [
        | inr (u, taken) ↦ absurd (ground (arith, got, taken))
        | inl missing ↦ elim (Result-cases (org_for org_id hex req.org_name w).0) [
          | inl (e, failed) ↦ absurd (ground (arith, got, missing, failed))
          | inr ((org, is_new), given) ↦ ground (arith, got, missing, given)
        ]
      ]

  -- Whoever registers belongs to the organization of the slug asked for, as it is in the table
  -- afterwards: as a viewer, of the default organization or one that was there before; or as the
  -- administrator of one of whose slug there was none before.
  pub registered_role :
      (now id org_id jti : ℕ) (hex salt : Text) (req : RegisterRequest) (w : World)
      (r : TokenResponse)
      → (with_db (register s settings now id org_id jti hex salt req) w).0 ≡ ok r
      → let w' = (with_db (register s settings now id org_id jti hex salt req) w).1 in
        let slug = wanted_slug hex req.org_name in
        (u : User) × (org : Org) × (user_by_email req.email w'.committed ≡ some u)
        × (org_by_slug slug w'.committed ≡ some org)
        × (u.org_id ≡ org.id)
        × (((u.role ≡ viewer)
              × ((org_by_slug slug w.committed ≡ some org) ⊎ (slug ≡ text "default")))
            ⊎ ((u.role ≡ org_admin) × (org_by_slug slug w.committed ≡ none)))
  unfolding with_db
  registered_role now id org_id jti hex salt req w r got =
      let begun = record w { db = w.committed } in
      let m = register s settings now id org_id jti hex salt req begun in
      let done : m.0 ≡ ok r = sym (finish-result m.0 m.1) ∙ got in
      let (org, is_new, given, here) =
        registered s settings now id org_id jti hex salt req w r got in
      let (slug, there, before) = org_for-IsOrgOf org_id hex req.org_name begun org is_new given in
      let kept = register-orgs now id org_id jti hex salt req begun r done in
      let u = local_user s settings id salt req (org, is_new) in
      (
        u,
        org,
        here,
        unfold org_by_slug in
            ap (λ os. find (λ o. text_eq o.slug (wanted_slug hex req.org_name)) os)
              (finish-orgs m.0 r m.1 done ∙ kept)
            ∙ there,
        unfold local_user in refl,
        elim before [
          | inl (joined, known) ↦ inl (unfold local_user in rw joined refl, known)
          | inr (founded, unknown) ↦ inr (unfold local_user in rw founded refl, unknown)
        ],
      )
