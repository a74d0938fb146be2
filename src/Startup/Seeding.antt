-- ===== src/Startup/Seeding.antt =====
-- The account of the super administrator after the service has started.
use ai_inference_platform.Prelude.{ℕ, ◌≤◌, ◌≡◌, refl, true, none, some, arith, Text, length}
use ai_inference_platform.Errors.{ok}
use ai_inference_platform.Models.{User, Org}
use ai_inference_platform.Session.{World}
use ai_inference_platform.Orgs.{get_or_create_default_org}
use ai_inference_platform.Auth.{Services, Settings, IsSound, hash_password, user_by_email}
use ai_inference_platform.AuthRouter.{login}
use ai_inference_platform.AuthRouter.Login.{is_ok, login_iff}
use ai_inference_platform.AuthRouter.Register.{insert_user}
use ai_inference_platform.AuthRouter.Accounts.{insert_user-new, default_org-users}
use ai_inference_platform.Startup.{
  SuperAdmin, admin_user, add_super_admin, try_seeding, seed_super_admin,
}

module _ (s : Services) where
  seed_again :
      (id org_id : ℕ) (salt : Text) (admin : SuperAdmin) (w : World) (u : User)
      → user_by_email admin.email w.committed ≡ some u
      → w.db ≡ w.committed
      → seed_super_admin s id org_id salt admin w ≡ w
  unfolding seed_super_admin try_seeding add_super_admin
  seed_again id org_id salt admin w u account same = rw account (ground (arith, same))

  seeded :
      (id org_id : ℕ) (salt : Text) (admin : SuperAdmin) (w : World) (org : Org)
      → length admin.email ≤ 255
      → user_by_email admin.email w.committed ≡ none
      → (get_or_create_default_org org_id (record w { db = w.committed })).0 ≡ ok org
      → let w' = seed_super_admin s id org_id salt admin w in
        (user_by_email admin.email w'.committed ≡ some (admin_user s id salt admin org))
        × (w'.db ≡ w'.committed)
  unfolding seed_super_admin try_seeding add_super_admin
  seeded id org_id salt admin w org brief missing got =
      let begun = record w { db = w.committed } in
      let w₁ = (get_or_create_default_org org_id begun).1 in
      let u = admin_user s id salt admin org in
      let same = default_org-users org_id begun in
      let missing' : user_by_email u.email w₁.db ≡ none =
        unfold admin_user user_by_email in rw same missing in
      let added =
        insert_user-new u w₁ (unfold admin_user in omega arith) (unfold admin_user in brief)
          (unfold admin_user in refl) missing' in
      let here : user_by_email admin.email (insert_user u w₁).1.db ≡ some u =
        unfold admin_user in added.1 in
      (ground (arith, missing, got, added.0, here), refl)

  -- After a start on a database without the account of the super administrator, the super
  -- administrator can log in with the configured password, and another start adds nothing.
  pub seeded_admin_logs_in :
      (settings : Settings) (id org_id : ℕ) (salt : Text) (admin : SuperAdmin) (w : World)
      (org : Org) (now jti id' org_id' : ℕ) (salt' : Text)
      → IsSound s
      → length admin.email ≤ 255
      → user_by_email admin.email w.committed ≡ none
      → (get_or_create_default_org org_id (record w { db = w.committed })).0 ≡ ok org
      → let w' = seed_super_admin s id org_id salt admin w in
        (is_ok (login s settings now jti admin.email admin.password w').0 ≡ true)
        × (seed_super_admin s id' org_id' salt' admin w' ≡ w')
  seeded_admin_logs_in settings id org_id salt admin w org now jti id' org_id' salt' sound brief
        missing got =
      let w' = seed_super_admin s id org_id salt admin w in
      let u = admin_user s id salt admin org in
      let hashed = s.hashpw salt admin.password in
      let (account, same) = seeded id org_id salt admin w org brief missing got in
      let present : user_by_email admin.email w'.db ≡ some u = rw same account in
      (
        (login_iff s settings now jti admin.email admin.password w' u hashed present
              (unfold admin_user hash_password in refl)).1
            (
              sound.checkpw-hashpw salt admin.password,
              unfold admin_user in refl,
              unfold admin_user in refl,
            ),
        seed_again id' org_id' salt' admin w' u account same,
      )
