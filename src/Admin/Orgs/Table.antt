-- ===== src/Admin/Orgs/Table.antt =====
-- The table of organizations under its administration.
use ai_inference_platform.Prelude.{
  ℕ, ◌≤◌, ◌≡◌, ◌≢◌, refl, false, Option, none, some, List, [], ◌∷◌, arith, All, Text, text_eq_iff,
  length, update_where, ◌==◌, inl, inr, Bool-cases,
}
use ai_inference_platform.Errors.{Result-cases}
use ai_inference_platform.Ids.{UuidText}
use ai_inference_platform.Models.{Org}
use ai_inference_platform.Session.{World}
use ai_inference_platform.RefreshTokens.{any}
use ai_inference_platform.Orgs.Unique.{IsOrgTable, Differ, insert_org-IsOrgTable}
use ai_inference_platform.CurrentUser.{CurrentUser, require_role}
use ai_inference_platform.Admin.Orgs.{
  OrgCreate, OrgUpdate, create_org, update_org, store_update, target_org, updated_org, is_named,
  org_of,
}

-- The ids are those of a primary key.
abbrev pub IsKeyed : List Org → Type 0
IsKeyed [] = Unit
IsKeyed (o ∷ os) = All (λ a. a.id ≢ o.id) os × IsKeyed os

-- Creating an organization keeps the constraints of the table, whatever the request says.
pub create_org-IsOrgTable :
    (id : ℕ) (req : OrgCreate) (user : CurrentUser) (w : World)
    → IsOrgTable w.db.orgs
    → IsOrgTable (create_org id req user w).1.db.orgs
unfolding create_org require_role
create_org-IsOrgTable id req user w h = ground (arith, insert_org-IsOrgTable (org_of id req) w h)

module _ (id : ℕ) (f : Org → Org) (same_slug : (o : Org) → (f o).slug ≡ o.slug) where
  module _ (same_name : (o : Org) → (f o).name ≡ o.name) where
    Differ-kept : (a b : Org) → Differ a b → Differ (f a) (f b) × Differ (f a) b × Differ a (f b)
    Differ-kept a b d = rw (same_slug a, same_slug b, same_name a, same_name b) (d, d, d)

    All-Differ-kept :
        (a : Org) (os : List Org)
        → All (Differ a) os
        → All (Differ a) (update_where (λ o. o.id == id) f os)
          × All (Differ (f a)) (update_where (λ o. o.id == id) f os)
    All-Differ-kept a [] h = (tt, tt)
    All-Differ-kept a (b ∷ os) (d, h) = ground (arith, Differ-kept a b d, All-Differ-kept a os h)

    IsOrgTable-kept :
        (os : List Org) → IsOrgTable os → IsOrgTable (update_where (λ o. o.id == id) f os)
    IsOrgTable-kept [] h = tt
    IsOrgTable-kept (o ∷ os) h =
        ground (arith, same_name o, same_slug o, All-Differ-kept o os h.2, IsOrgTable-kept os h.3)

  module _ (name : Text) (new_name : (o : Org) → (f o).name ≡ name) where
    -- The renamed rows differ from a row of another name.
    All-Differ-renamed :
        (a : Org) (os : List Org)
        → All (Differ a) os
        → a.name ≢ name
        → All (Differ a) (update_where (λ o. o.id == id) f os)
    All-Differ-renamed a [] h other = tt
    All-Differ-renamed a (b ∷ os) (d, h) other =
        ground (arith, same_slug b, new_name b, All-Differ-renamed a os h other)

    update_where-others :
        (os : List Org) → All (λ a. a.id ≢ id) os → update_where (λ o. o.id == id) f os ≡ os
    update_where-others [] h = refl
    update_where-others (a ∷ os) (other, h) = ground (arith, other, update_where-others os h)

    -- The renamed row differs from the others.
    All-Differ-others :
        (o : Org) (os : List Org)
        → All (Differ o) os
        → All (λ a. a.id ≢ id) os
        → is_named id name os ≡ false
        → All (Differ (f o)) os
    unfolding is_named any
    All-Differ-others o [] h others free = tt
    All-Differ-others o (b ∷ os) (d, h) (other, others) free =
        ground
          (arith, same_slug o, new_name o, text_eq_iff b.name name, All-Differ-others o os h others)

    IsOrgTable-renamed :
        (os : List Org)
        → length name ≤ 100
        → IsOrgTable os
        → IsKeyed os
        → is_named id name os ≡ false
        → IsOrgTable (update_where (λ o. o.id == id) f os)
    unfolding is_named any
    IsOrgTable-renamed [] short h keyed free = tt
    IsOrgTable-renamed (o ∷ os) short h (only, keyed) free = elim (Bool-cases (o.id == id)) [
      | inl it ↦
          let is_it : o.id ≡ id = ground arith in
          let others : All (λ a. a.id ≢ id) os = rw is_it at only in
          let free' : is_named id name os ≡ false = ground arith in
          let rest = update_where-others os others in
          rw (it, rest)
            (
              rw (new_name o) short,
              rw (same_slug o) h.1,
              All-Differ-others o os h.2 others free',
              h.3,
            )
      | inr other ↦
          let free' : is_named id name os ≡ false = ground arith in
          let apart : o.name ≢ name = ground (arith, text_eq_iff o.name name) in
          rw other (
            h.0,
            h.1,
            All-Differ-renamed o os h.2 apart,
            IsOrgTable-renamed os short h.3 keyed free',
          )
    ]

updated-IsOrgTable :
    (req : OrgUpdate) (name : Option Text) (target : Org) (os : List Org)
    → req.name ≡ name
    → length (updated_org req target).name ≤ 100
    → IsOrgTable os
    → IsKeyed os
    → is_named target.id (updated_org req target).name os ≡ false
    → IsOrgTable (update_where (λ o. o.id == target.id) (updated_org req) os)
unfolding updated_org
updated-IsOrgTable req none target os e short h keyed free =
    IsOrgTable-kept target.id (updated_org req) (λ o. refl) (λ o. rw e refl) os h
updated-IsOrgTable req (some name) target os e short h keyed free =
    IsOrgTable-renamed target.id (updated_org req) (λ o. refl) name (λ o. rw e refl) os
      (rw e at short) h keyed (rw e at free)

store_update-IsOrgTable :
    (req : OrgUpdate) (target : Org) (w : World)
    → IsOrgTable w.db.orgs
    → IsKeyed w.db.orgs
    → IsOrgTable (store_update req target w).1.db.orgs
unfolding store_update
store_update-IsOrgTable req target w h keyed =
    ground (arith, updated-IsOrgTable req req.name target w.db.orgs refl)

target_org-keeps :
    (org_id : UuidText) (user : CurrentUser) (w : World) → (target_org org_id user w).1 ≡ w
unfolding target_org require_role
target_org-keeps org_id user w = ground arith

-- Updating an organization keeps the constraints of the table, where the ids are unique.
pub update_org-IsOrgTable :
    (org_id : UuidText) (req : OrgUpdate) (user : CurrentUser) (w : World)
    → IsOrgTable w.db.orgs
    → IsKeyed w.db.orgs
    → IsOrgTable (update_org org_id req user w).1.db.orgs
unfolding update_org target_org
update_org-IsOrgTable org_id req user w h keyed =
    let same = target_org-keeps org_id user w in
    elim (Result-cases (target_org org_id user w).0) [
      | inl (e, failed) ↦ rw (update_org, failed, same) h
      | inr (target, found) ↦
          rw (update_org, found, same) (store_update-IsOrgTable req target w h keyed)
    ]
