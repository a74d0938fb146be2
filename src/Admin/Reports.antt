-- ===== src/Admin/Reports.antt =====
-- backend/app/routers/admin/usage.py: the reports of usage. Times are in microseconds, and a day is
-- one of UTC. `fromisoformat` is an argument; it fails also on a time that the database refuses to
-- compare with, having no zone.
pub mod Sums
pub mod Days
use ai_inference_platform.Prelude.{
  ℕ, zero, suc, ◌+◌, ◌-◌, ◌*◌, ◌/◌, Bool, true, false, ◌&&◌, Option, none, some, List, [], ◌∷◌,
  Text, length, select, leb, ◌==◌, if◌then◌else◌,
}
use ai_inference_platform.Errors.{Result, ok, err}
use ai_inference_platform.Ids.{UuidText, parse_uuid, is_blank}
use ai_inference_platform.Models.{
  UsageLog, Role, platform_admin, org_admin, operator, viewer, role_eq,
}
use ai_inference_platform.Session.{Action, pure, lift, query, ◌>>=◌, ◌>>◌}
use ai_inference_platform.CurrentUser.{CurrentUser, require_role}
use ai_inference_platform.Admin.{is_platform_admin}

abbrev pub everyone : List Role
everyone = platform_admin ∷ org_admin ∷ operator ∷ viewer ∷ []

-- What a query is narrowed to.
pub data Scope : Type 0 where
  all : Scope
  of_org of_user : ℕ → Scope

abbrev pub scope_by : (ℕ → Scope) → Result ℕ → Result Scope
scope_by f (ok id) = ok (f id)
scope_by f (err e) = err e

-- `if org_id`
abbrev pub chosen_org : Option UuidText → Result Scope
chosen_org none = ok all
chosen_org (some u) = if is_blank u then ok all else scope_by of_org (parse_uuid u)

unfoldable pub report_scope : Option UuidText → CurrentUser → Result Scope
report_scope org_id user =
    if is_platform_admin user
    then chosen_org org_id
    else if role_eq user.role org_admin
    then scope_by of_org (parse_uuid user.org_id)
    else scope_by of_user (parse_uuid user.user_id)

abbrev pub is_id : ℕ → Option ℕ → Bool
is_id id none = false
is_id id (some n) = n == id

unfoldable pub covers : Scope → UsageLog → Bool
covers all l = true
covers (of_org org) l = l.org_id == org
covers (of_user id) l = is_id id l.user_id

-- The rows in scope from `start` to `end`.
unfoldable pub rows_between : Scope → (start end : ℕ) → List UsageLog → List UsageLog
unfolding covers
rows_between scope start end logs =
    select (λ l. covers scope l && leb start l.created_at && leb l.created_at end) logs

abbrev pub total : {A : Type 0} → (A → ℕ) → List A → ℕ
total f [] = 0
total f (l ∷ ls) = f l + total f ls

pub record UsageSummary : Type 0 where
  pub total_requests : ℕ
  pub prompt_tokens : ℕ
  pub completion_tokens : ℕ
  pub total_tokens : ℕ

-- The counts and sums of the query; a sum over no rows is null, and is taken for 0.
unfoldable pub summary_of : List UsageLog → UsageSummary
summary_of rows = record {
  total_requests = length rows;
  prompt_tokens = total (λ l. l.prompt_tokens) rows;
  completion_tokens = total (λ l. l.completion_tokens) rows;
  total_tokens = total (λ l. l.total_tokens) rows;
}

abbrev pub a_day : ℕ
a_day = 86400000000

-- `datetime.fromisoformat(date) if date else default`
abbrev pub or_default : (Text → Result ℕ) → Option Text → (default : ℕ) → Result ℕ
or_default fromisoformat none default = ok default
or_default fromisoformat (some []) default = ok default
or_default fromisoformat (some (c ∷ t)) default = fromisoformat (c ∷ t)

unfoldable pub get_usage_summary :
    (fromisoformat : Text → Result ℕ)
    → (now : ℕ) → (start_date end_date : Option Text) → (org_id : Option UuidText) → CurrentUser
    → Action UsageSummary
unfolding report_scope rows_between summary_of
get_usage_summary fromisoformat now start_date end_date org_id user = do
  require_role everyone user
  scope ← lift (report_scope org_id user)
  start ← lift (or_default fromisoformat start_date (now - 30 * a_day))
  end ← lift (or_default fromisoformat end_date now)
  query (λ db. summary_of (rows_between scope start end db.usage_logs))

-- A day is counted from the epoch.
pub record DailyUsageItem : Type 0 where
  pub date : ℕ
  pub requests : ℕ
  pub tokens : ℕ

-- The rows of a day, as the query groups them; 0 where it has no group.
unfoldable pub item_of : List UsageLog → (day : ℕ) → DailyUsageItem
item_of rows day =
    let group = select (λ l. l.created_at / a_day == day) rows in
    record { date = day; requests = length group; tokens = total (λ l. l.total_tokens) group }

-- `for i in range(n, -1, -1)`
unfoldable pub days_back : (n : ℕ) → List UsageLog → (now : ℕ) → List DailyUsageItem
unfolding item_of
days_back zero rows now = item_of rows (now / a_day) ∷ []
days_back (suc n) rows now = item_of rows ((now - suc n * a_day) / a_day) ∷ days_back n rows now

unfoldable pub get_daily_usage :
    (now : ℕ) → (org_id : Option UuidText) → CurrentUser → Action (List DailyUsageItem)
unfolding report_scope rows_between days_back
get_daily_usage now org_id user = do
  require_role everyone user
  scope ← lift (report_scope org_id user)
  query (λ db. days_back 14 (rows_between scope (now - 14 * a_day) now db.usage_logs) now)
