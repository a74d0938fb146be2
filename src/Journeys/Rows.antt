-- ===== src/Journeys/Rows.antt =====
-- Rows that queries find or that are inserted are in their tables.
use ai_inference_platform.Prelude.{
  ℕ, ◌≡◌, Bool, true, Option, none, some, List, [], ◌∷◌, ◌++◌, Text, text, text_eq, arith, find,
  ◌==◌, Option-cases, inl, inr,
}
use ai_inference_platform.Errors.{ok, Result-cases}
use ai_inference_platform.Models.{Org, User}
use ai_inference_platform.Session.{World}
use ai_inference_platform.Orgs.{
  org_by_slug, insert_org, or_insert, new_org, or_random_slug, slugify, get_or_create_default_org,
  get_or_create_custom_org,
}
use ai_inference_platform.RefreshTokens.{any}
use ai_inference_platform.AuthRouter.Register.{org_for, insert_user}

module _ {A : Type 0} (key : A → ℕ) where
  pub find-any :
      (p : A → Bool) (xs : List A) (x : A)
      → find p xs ≡ some x
      → any (λ y. key y == key x) xs ≡ true
  unfolding any
  find-any p [] x found = absurd (ground (arith, found))
  find-any p (y ∷ ys) x found = ground (arith, found, find-any p ys x)

  any-last : (xs : List A) (x : A) → any (λ y. key y == key x) (xs ++ x ∷ []) ≡ true
  unfolding any
  any-last [] x = ground arith
  any-last (y ∷ ys) x = ground (arith, any-last ys x)

abbrev org_id_of : Org → ℕ
org_id_of o = o.id

-- An organization that was found or inserted is in the table.
or_insert-known :
    (slug : Text) (new : Org) (w : World) (org : Org) (is_new : Bool)
    → (or_insert (org_by_slug slug w.db) new w).0 ≡ ok (org, is_new)
    → any (λ o. o.id == org.id) (or_insert (org_by_slug slug w.db) new w).1.db.orgs ≡ true
unfolding or_insert insert_org
or_insert-known slug new w org is_new got = elim (Option-cases (org_by_slug slug w.db)) [
  | inr (o, found) ↦
      let there =
        find-any org_id_of (λ r. text_eq r.slug slug) w.db.orgs o (unfold org_by_slug in found) in
      ground (arith, got, found, there)
  | inl missing ↦ ground (arith, got, missing, any-last org_id_of w.db.orgs new)
]

default_org-known :
    (id : ℕ) (w : World) (org : Org)
    → (get_or_create_default_org id w).0 ≡ ok org
    → any (λ o. o.id == org.id) (get_or_create_default_org id w).1.db.orgs ≡ true
unfolding get_or_create_default_org
default_org-known id w org got =
    let new = new_org id (text "Default") (text "default") in
    let m = or_insert (org_by_slug (text "default") w.db) new w in
    elim (Result-cases m.0) [
      | inl (e, failed) ↦ absurd (ground (arith, got, failed))
      | inr ((o, is_new), given) ↦
          let known = or_insert-known (text "default") new w o is_new given in
          ground (arith, got, given, known)
    ]

pub org_for-known :
    (id : ℕ) (hex : Text) (name : Option Text) (w : World) (org : Org) (is_new : Bool)
    → (org_for id hex name w).0 ≡ ok (org, is_new)
    → any (λ o. o.id == org.id) (org_for id hex name w).1.db.orgs ≡ true
unfolding org_for
org_for-known id hex none w org is_new got =
    elim (Result-cases (get_or_create_default_org id w).0) [
      | inl (e, failed) ↦ absurd (ground (arith, got, failed))
      | inr (o, given) ↦ ground (arith, got, given, default_org-known id w o given)
    ]
org_for-known id hex (some []) w org is_new got =
    elim (Result-cases (get_or_create_default_org id w).0) [
      | inl (e, failed) ↦ absurd (ground (arith, got, failed))
      | inr (o, given) ↦ ground (arith, got, given, default_org-known id w o given)
    ]
org_for-known id hex (some (c ∷ t)) w org is_new got =
    let slug = or_random_slug hex (slugify (c ∷ t)) in
    unfold get_or_create_custom_org in
    or_insert-known slug (new_org id (c ∷ t) slug) w org is_new got

pub insert_user-orgs : (u : User) (w : World) → (insert_user u w).1.db.orgs ≡ w.db.orgs
unfolding insert_user
insert_user-orgs u w = ground arith
