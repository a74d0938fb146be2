-- ===== src/Tests/Reporting.antt =====
-- Examples of the reports of usage, and of the administration of organizations.
use ai_inference_platform.Prelude.{ℕ, ◌*◌, ◌≡◌, refl, none, some, List, [], ◌∷◌, Text, text, arith}
use ai_inference_platform.Errors.{Result, ok, err, unhandled, value_error}
use ai_inference_platform.Ids.{parse_uuid}
use ai_inference_platform.Models.{platform_admin, role_eq}
use ai_inference_platform.CurrentUser.{CurrentUser, require_role, is_one_of}
use ai_inference_platform.Admin.Reports.{
  get_usage_summary, get_daily_usage, UsageSummary, DailyUsageItem, report_scope, covers,
  rows_between, summary_of, item_of, days_back,
}
use ai_inference_platform.Admin.Reports.Sums.{seen_by, get_usage_summary-seen_by}
use ai_inference_platform.Admin.Reports.Days.{requests, tokens, daily-adds_up}
use ai_inference_platform.Tests.Service.{world, caller, used}

abbrev fromisoformat : Text → Result ℕ
fromisoformat [] = err (unhandled value_error)
fromisoformat (c ∷ t) = ok (6 * 86400000000)

abbrev now : ℕ
now = 20 * 86400000000

abbrev summary : UsageSummary
summary = record { total_requests = 1; prompt_tokens = 5; completion_tokens = 6; total_tokens = 11 }

summary_given :
    (get_usage_summary fromisoformat now (some (text "d")) none none caller world).0 ≡ ok summary
unfolding get_usage_summary require_role is_one_of role_eq report_scope parse_uuid rows_between
    covers summary_of
summary_given = refl

get_usage_summary-seen_by_example :
    (get_usage_summary fromisoformat now none none none caller world).0
    ≡ (get_usage_summary fromisoformat now none none none caller (seen_by caller 7 3 world)).0
get_usage_summary-seen_by_example =
    get_usage_summary-seen_by fromisoformat now none none none caller world 7 3
      (unfold role_eq in refl) refl refl

abbrev items : List DailyUsageItem
items = days_back 14 (used ∷ []) now

items_given : (get_daily_usage now none caller world).0 ≡ ok items
unfolding get_daily_usage require_role is_one_of role_eq report_scope parse_uuid rows_between covers
    days_back item_of
items_given = refl

daily-adds_up_example : (requests items ≡ 1) × (tokens items ≡ 11)
daily-adds_up_example =
    daily-adds_up fromisoformat now (text "d") none caller world items summary (omega arith) refl
      items_given summary_given

abbrev admin : CurrentUser
admin = record caller { role = platform_admin }
