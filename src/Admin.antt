-- ===== src/Admin.antt =====
-- backend/app/routers/admin: the administration of users, API keys and organizations, the
-- reports of usage, and what of it is shared: the rows that a user may see.
pub mod Users
pub mod Tenants
pub mod Removal
pub mod Keys
pub mod Orgs
pub mod Reports
use ai_inference_platform.Prelude.{ℕ, Bool, true, Option, none, some, ◌==◌, if◌then◌else◌}
use ai_inference_platform.Errors.{Result, ok, err}
use ai_inference_platform.Ids.{parse_uuid}
use ai_inference_platform.Models.{platform_admin, role_eq}
use ai_inference_platform.CurrentUser.{CurrentUser}

-- `user.role == "platform_admin"`
abbrev pub is_platform_admin : CurrentUser → Bool
is_platform_admin user = role_eq user.role platform_admin

-- The organization that a query is narrowed to, if it is.
unfoldable pub org_scope : CurrentUser → Result (Option ℕ)
org_scope user =
    if is_platform_admin user
    then ok none
    else elim (parse_uuid user.org_id) [ ok org_id ↦ ok (some org_id) | err e ↦ err e ]

abbrev pub in_scope : Option ℕ → ℕ → Bool
in_scope none org_id = true
in_scope (some org) org_id = org_id == org
