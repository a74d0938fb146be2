-- ===== src/Admin/Orgs/Deletion.antt =====
-- Whether an organization can be deleted, and what is left.
use ai_inference_platform.Prelude.{ℕ, ◌≡◌, false, Option, none, some, List, All, ◌==◌}
use ai_inference_platform.Models.{Db}
use ai_inference_platform.RefreshTokens.{any}
use ai_inference_platform.CurrentUser.{CurrentUser}
use ai_inference_platform.Admin.Orgs.{
  log_in, key_in, user_in, without_logs, without_keys, without_users,
}

-- A reference to a row names one of the organization `o`.
abbrev pub Agrees : {A : Type 0} → (id_of org_of : A → ℕ) → (o : ℕ) → Option ℕ → List A → Type 0
Agrees id_of org_of o none rows = Unit
Agrees id_of org_of o (some n) rows = All (λ r. id_of r ≡ n → org_of r ≡ o) rows

-- The key and the user of a log, and the creator of a key, are of the same organization.
pub record IsTenantDb (db : Db) : Type 0 where
  pub log_keys :
      All (λ l. Agrees (λ k. k.id) (λ k. k.org_id) l.org_id l.api_key_id db.api_keys) db.usage_logs
  pub log_users :
      All (λ l. Agrees (λ u. u.id) (λ u. u.org_id) l.org_id l.user_id db.users) db.usage_logs
  pub creators :
      All
        (λ k. Agrees (λ u. u.id) (λ u. u.org_id) k.org_id (some k.created_by_user_id) db.users)
        db.api_keys

emptied : ℕ → Db → Db
emptied org db = without_users org (without_keys org (without_logs org db))

-- Nothing of the organization is left, nor the organization.
abbrev pub IsWithout : ℕ → Db → Type 0
IsWithout org db =
    (any (log_in org) db.usage_logs ≡ false)
    × (any (key_in org) db.api_keys ≡ false)
    × (any (user_in org) db.users ≡ false)
    × (any (λ o. o.id == org) db.orgs ≡ false)
