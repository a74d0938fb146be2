-- ===== src/Orgs/Unique.antt =====
-- The table of organizations under the helpers: slugs and names stay unique, and asking for an
-- organization twice gives the same one.
use ai_inference_platform.Prelude.{
  ℕ, ◌≤◌, ◌≡◌, ◌≢◌, refl, Bool, true, false, none, some, List, [], ◌∷◌, ◌++◌, All, arith, Text,
  text_eq, text_eq_iff, find, length, Option-cases, inl, inr,
}
use ai_inference_platform.Errors.{ok}
use ai_inference_platform.Models.{Org}
use ai_inference_platform.Session.{World}
use ai_inference_platform.Orgs.{
  org_by_slug, clashes, insert_org, or_insert, new_org, or_random_slug, slugify,
  get_or_create_custom_org,
}

-- Two rows differ in slug and in name.
abbrev pub Differ : Org → Org → Type 0
Differ a b = (a.slug ≢ b.slug) × (a.name ≢ b.name)

-- The constraints of the table: unique slugs and names, which fit their columns.
abbrev pub IsOrgTable : List Org → Type 0
IsOrgTable [] = Unit
IsOrgTable (o ∷ os) =
    (length o.name ≤ 100) × (length o.slug ≤ 50) × All (Differ o) os × IsOrgTable os

All-Differ-append :
    (a o : Org) (os : List Org) → All (Differ a) os → Differ a o → All (Differ a) (os ++ o ∷ [])
All-Differ-append a o [] h d = (d, tt)
All-Differ-append a o (b ∷ os) h d = (h.0, All-Differ-append a o os h.1 d)

IsOrgTable-append :
    (o : Org) (os : List Org)
    → IsOrgTable os
    → length o.name ≤ 100
    → length o.slug ≤ 50
    → clashes o os ≡ false
    → IsOrgTable (os ++ o ∷ [])
unfolding clashes
IsOrgTable-append o [] h n s free = (n, s, tt, tt)
IsOrgTable-append o (a ∷ os) h n s free = (
  h.0,
  h.1,
  All-Differ-append a o os h.2
      (ground (arith, text_eq_iff a.slug o.slug, text_eq_iff a.name o.name)),
  IsOrgTable-append o os h.3 n s (ground arith),
)

pub insert_org-IsOrgTable :
    (o : Org) (w : World) → IsOrgTable w.db.orgs → IsOrgTable (insert_org o w).1.db.orgs
unfolding insert_org
insert_org-IsOrgTable o w h = ground (arith, IsOrgTable-append o w.db.orgs h)

-- Getting or creating an organization keeps the constraints of the table.
pub get_or_create_custom_org-IsOrgTable :
    (id : ℕ) (hex org_name : Text) (w : World)
    → IsOrgTable w.db.orgs
    → IsOrgTable (get_or_create_custom_org id hex org_name w).1.db.orgs
unfolding get_or_create_custom_org
get_or_create_custom_org-IsOrgTable id hex org_name w h =
    let slug = or_random_slug hex (slugify org_name) in
    unfold or_insert in ground (arith, insert_org-IsOrgTable (new_org id org_name slug) w h)

find-append :
    (p : Org → Bool) (os : List Org) (o : Org)
    → find p os ≡ none
    → p o ≡ true
    → find p (os ++ o ∷ []) ≡ some o
find-append p [] o h e = ground arith
find-append p (a ∷ os) o h e = ground (arith, find-append p os o)

pub org_by_slug-insert :
    (slug : Text) (o : Org) (w : World)
    → org_by_slug slug w.db ≡ none
    → o.slug ≡ slug
    → (insert_org o w).0 ≡ ok tt
    → org_by_slug slug (insert_org o w).1.db ≡ some o
unfolding org_by_slug insert_org
org_by_slug-insert slug o w absent same inserted = ground (
  arith,
  find-append (λ r. text_eq r.slug slug) w.db.orgs o absent ((text_eq_iff o.slug slug).1 same),
)

or_insert_again :
    (slug : Text) (new new' : Org) (w : World) (org : Org) (is_new : Bool)
    → new.slug ≡ slug
    → (or_insert (org_by_slug slug w.db) new w).0 ≡ ok (org, is_new)
    → let w' = (or_insert (org_by_slug slug w.db) new w).1 in
      (or_insert (org_by_slug slug w'.db) new' w').0 ≡ ok (org, false)
unfolding or_insert
or_insert_again slug new new' w org is_new same got = elim (Option-cases (org_by_slug slug w.db)) [
  | inl absent ↦ ground (arith, absent, org_by_slug-insert slug new w absent same)
  | inr (o, found) ↦ ground (arith, found)
]

or_random_slug_named : (hex slug : Text) → slug ≢ [] → or_random_slug hex slug ≡ slug
unfolding or_random_slug
or_random_slug_named hex [] named = absurd (named refl)
or_random_slug_named hex (c ∷ t) named = refl

-- A name that has a slug of its own leads to one organization: whoever asks for it again, with
-- whatever new id, gets the one that the first request got, and not as a new one.
pub get_or_create_custom_org_again :
    (id id' : ℕ) (hex hex' org_name : Text) (w : World) (org : Org) (is_new : Bool)
    → slugify org_name ≢ []
    → (get_or_create_custom_org id hex org_name w).0 ≡ ok (org, is_new)
    → (get_or_create_custom_org id' hex' org_name (get_or_create_custom_org id hex org_name w).1).0
      ≡ ok (org, false)
unfolding get_or_create_custom_org
get_or_create_custom_org_again id id' hex hex' org_name w org is_new named got =
    let own = or_random_slug_named hex (slugify org_name) named in
    let own' = or_random_slug_named hex' (slugify org_name) named in
    rw (own, own')
      (or_insert_again (slugify org_name) (new_org id org_name (slugify org_name))
        (new_org id' org_name (slugify org_name)) w org is_new refl (rw own at got))
