-- ===== src/Admin/Tenants.antt =====
-- What an administrator of one organization can do to the users of the others, and to roles.
use mathlib.Core.List.{append-nil}
use ai_inference_platform.Prelude.{
  ℕ, ◌≡◌, ◌≢◌, refl, Bool, true, not, ◌&&◌, none, some, List, [], ◌∷◌, arith, Text, select,
  select-append, update_where, find, All, ◌==◌, ==_iff, Bool-cases, inl, inr,
}
use ai_inference_platform.Errors.{ok, Result-cases}
use ai_inference_platform.Ids.{UuidText, canonical, parse_uuid, uuid_text_eq, uuid_text_eq_iff}
use ai_inference_platform.Models.{User, platform_admin, org_admin, role_eq}
use ai_inference_platform.Session.{World}
use ai_inference_platform.Auth.{Services}
use ai_inference_platform.CurrentUser.{CurrentUser, require_role, is_one_of}
use ai_inference_platform.AuthRouter.Register.{insert_user}
use ai_inference_platform.Admin.{org_scope}
use ai_inference_platform.Admin.Users.{
  UserCreate, UserUpdate, create_user, update_user, delete_user, target_user, user_in_scope,
  apply_update, without_user, new_user, fits,
}

-- Ids are unique.
abbrev pub IsKeyed : List User → Type 0
IsKeyed [] = Unit
IsKeyed (u ∷ us) = All (λ v. v.id ≢ u.id) us × IsKeyed us

-- The users of an organization.
abbrev pub members : ℕ → List User → List User
members org = select (λ u. u.org_id == org)

find-All :
    (p : User → Bool) (P : User → Type 0) (us : List User) (t : User)
    → find p us ≡ some t
    → All P us
    → P t
find-All p P [] t found h = cc
find-All p P (u ∷ us) t found h = elim (Bool-cases (p u)) [
  | inl here ↦ let same : u ≡ t = ground (arith, found, here) in rw same at h.0
  | inr there ↦ find-All p P us t (ground (arith, found, there)) h.1
]

update_where-absent :
    (f : User → User) (id : ℕ) (us : List User)
    → All (λ v. v.id ≢ id) us
    → update_where (λ u. u.id == id) f us ≡ us
update_where-absent f id [] h = refl
update_where-absent f id (u ∷ us) h = ground (arith, update_where-absent f id us h.1, h.0)

select-absent :
    (id : ℕ) (us : List User) → All (λ v. v.id ≢ id) us → select (λ u. not (u.id == id)) us ≡ us
select-absent id [] h = refl
select-absent id (u ∷ us) h = ground (arith, select-absent id us h.1, h.0)

members-update :
    (other : ℕ) (req : UserUpdate) (p : User → Bool) (us : List User) (t : User)
    → find p us ≡ some t
    → IsKeyed us
    → t.org_id ≢ other
    → members other (update_where (λ u. u.id == t.id) (apply_update req) us) ≡ members other us
unfolding apply_update
members-update other req p [] t found keyed foreign = refl
members-update other req p (u ∷ us) t found keyed foreign = elim (Bool-cases (p u)) [
  | inl here ↦
      let same : u ≡ t = ground (arith, found, here) in
      let absent : All (λ v. v.id ≢ t.id) us = rw same at keyed.0 in
      rw (update_where-absent (apply_update req) t.id us absent) (rw same (ground (arith, foreign)))
  | inr there ↦
      let found' : find p us ≡ some t = ground (arith, found, there) in
      let apart = find-All p (λ v. v.id ≢ u.id) us t found' keyed.0 in
      ground (arith, apart, members-update other req p us t found' keyed.1 foreign)
]

members-delete :
    (other : ℕ) (p : User → Bool) (us : List User) (t : User)
    → find p us ≡ some t
    → IsKeyed us
    → t.org_id ≢ other
    → members other (select (λ u. not (u.id == t.id)) us) ≡ members other us
members-delete other p [] t found keyed foreign = refl
members-delete other p (u ∷ us) t found keyed foreign = elim (Bool-cases (p u)) [
  | inl here ↦
      let same : u ≡ t = ground (arith, found, here) in
      let absent : All (λ v. v.id ≢ t.id) us = rw same at keyed.0 in
      let self : (t.id == t.id) ≡ true = (==_iff t.id t.id).1 refl in
      rw (same, self, select-absent t.id us absent) (ground (arith, foreign))
  | inr there ↦
      let found' : find p us ≡ some t = ground (arith, found, there) in
      let apart = find-All p (λ v. v.id ≢ u.id) us t found' keyed.0 in
      ground (arith, apart, members-delete other p us t found' keyed.1 foreign)
]

-- The requests that write.
pub data Request : Type 0 where
  create : (id : ℕ) → (salt : Text) → UserCreate → Request
  update : (user_id : UuidText) → UserUpdate → Request
  delete : (user_id : UuidText) → Request

-- The world after a request of an administrator.
unfoldable pub administer : Services → CurrentUser → Request → World → World
administer s admin (create id salt req) w = (create_user s id salt req admin w).1
administer s admin (update user_id req) w = (update_user user_id req admin w).1
administer s admin (delete user_id) w = (delete_user user_id admin w).1

found_in_scope :
    (id org : ℕ) (us : List User) (t : User)
    → find (λ u. u.id == id && u.org_id == org) us ≡ some t
    → t.org_id ≡ org
found_in_scope id org [] t found = cc
found_in_scope id org (u ∷ us) t found = ground (arith, found_in_scope id org us t)

-- Where an administrator of one organization is let through, the row is of that organization.
target_user-org :
    (admin : CurrentUser) (org : ℕ) (user_id : UuidText) (w : World) (t : User)
    → admin.role ≡ org_admin
    → parse_uuid admin.org_id ≡ ok org
    → (target_user user_id admin w).0 ≡ ok t
    → ((id : ℕ) × (find (λ u. u.id == id && u.org_id == org) w.db.users ≡ some t))
unfolding target_user require_role is_one_of role_eq org_scope user_in_scope
target_user-org admin org user_id w t role named got = elim (Result-cases (parse_uuid user_id)) [
  | inl (e, failed) ↦ ground (arith, failed, role, named, got)
  | inr (id, parsed) ↦ (id, ground (arith, parsed, role, named, got))
]

target_user-same :
    (admin : CurrentUser) (user_id : UuidText) (w : World) → (target_user user_id admin w).1 ≡ w
unfolding target_user require_role
target_user-same admin user_id w = ground arith

members-insert :
    (other : ℕ) (row : User) (w : World)
    → row.org_id ≢ other
    → members other (insert_user row w).1.db.users ≡ members other w.db.users
unfolding insert_user
members-insert other row w foreign = ground (
  arith,
  select-append (λ u. u.org_id == other) w.db.users (row ∷ []),
  append-nil (members other w.db.users),
)

members-create :
    (s : Services) (admin : CurrentUser) (org other id : ℕ) (salt : Text) (req : UserCreate)
    (w : World)
    → admin.role ≡ org_admin
    → parse_uuid admin.org_id ≡ ok org
    → other ≢ org
    → members other (create_user s id salt req admin w).1.db.users ≡ members other w.db.users
unfolding create_user require_role is_one_of role_eq
members-create s admin org other id salt req w role named foreign =
    elim (Bool-cases (uuid_text_eq req.org_id admin.org_id)) [
      | inl same ↦
          let e : req.org_id ≡ admin.org_id = (uuid_text_eq_iff req.org_id admin.org_id).0 same in
          let parsed : parse_uuid req.org_id ≡ ok org = rw e named in
          let row = new_user s id org salt req in
          ground (
            arith,
            role,
            parsed,
            same,
            members-insert other row w (unfold new_user in ground arith),
          )
      | inr apart ↦ ground (arith, role, apart)
    ]

members-update_user :
    (admin : CurrentUser) (org other : ℕ) (user_id : UuidText) (req : UserUpdate) (w : World)
    → admin.role ≡ org_admin
    → parse_uuid admin.org_id ≡ ok org
    → other ≢ org
    → IsKeyed w.db.users
    → members other (update_user user_id req admin w).1.db.users ≡ members other w.db.users
unfolding update_user
members-update_user admin org other user_id req w role named foreign keyed =
    elim (Result-cases (target_user user_id admin w).0) [
      | inl (e, failed) ↦ ground (arith, failed, target_user-same admin user_id w)
      | inr (t, got) ↦
          let (id, found) = target_user-org admin org user_id w t role named got in
          let here = found_in_scope id org w.db.users t found in
          ground (
            arith,
            got,
            target_user-same admin user_id w,
            members-update other req (λ u. u.id == id && u.org_id == org) w.db.users t found keyed
                (ground (arith, here)),
          )
    ]

members-delete_user :
    (admin : CurrentUser) (org other : ℕ) (user_id : UuidText) (w : World)
    → admin.role ≡ org_admin
    → parse_uuid admin.org_id ≡ ok org
    → other ≢ org
    → IsKeyed w.db.users
    → members other (delete_user user_id admin w).1.db.users ≡ members other w.db.users
unfolding delete_user without_user
members-delete_user admin org other user_id w role named foreign keyed =
    elim (Result-cases (target_user user_id admin w).0) [
      | inl (e, failed) ↦ ground (arith, failed, target_user-same admin user_id w)
      | inr (t, got) ↦
          let (id, found) = target_user-org admin org user_id w t role named got in
          let here = found_in_scope id org w.db.users t found in
          ground (
            arith,
            got,
            target_user-same admin user_id w,
            members-delete other (λ u. u.id == id && u.org_id == org) w.db.users t found keyed
                (ground (arith, here)),
          )
    ]

-- Whatever the administrator of one organization asks for, the users of every other organization
-- are as before, if ids are unique.
pub administer-members :
    (s : Services) (admin : CurrentUser) (org other : ℕ) (r : Request) (w : World)
    → admin.role ≡ org_admin
    → parse_uuid admin.org_id ≡ ok org
    → other ≢ org
    → IsKeyed w.db.users
    → members other (administer s admin r w).db.users ≡ members other w.db.users
unfolding administer
administer-members s admin org other (create id salt req) w role named foreign keyed =
    members-create s admin org other id salt req w role named foreign
administer-members s admin org other (update user_id req) w role named foreign keyed =
    members-update_user admin org other user_id req w role named foreign keyed
administer-members s admin org other (delete user_id) w role named foreign keyed =
    members-delete_user admin org other user_id w role named foreign keyed

-- The administrator of an organization can make any user of it, himself included, an administrator
-- of the platform: nothing checks the role that is asked for.
pub org_admin_promotes :
    (admin : CurrentUser) (org id : ℕ) (t : User) (w : World)
    → admin.role ≡ org_admin
    → parse_uuid admin.org_id ≡ ok org
    → user_in_scope id (some org) w.db ≡ some t
    → fits t ≡ true
    → (update_user
        (canonical id)
        (record { name = none; role = some platform_admin; is_active = none })
        admin
        w).0
      ≡ ok (record t { role = platform_admin })
unfolding update_user target_user require_role is_one_of role_eq org_scope apply_update parse_uuid
    fits
org_admin_promotes admin org id t w role named found short =
    ground (arith, role, named, found, short)
