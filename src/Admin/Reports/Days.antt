-- ===== src/Admin/Reports/Days.antt =====
-- The days of the report add up to the rows of the window.
use ai_inference_platform.Prelude.{
  Text, Bool-cases, inl, inr, some, none, ℕ, zero, suc, ◌+◌, ◌-◌, ◌*◌, ◌/◌, ◌≤◌, ◌≡◌, refl, Bool,
  ◌&&◌, Option, List, [], ◌∷◌, arith, select, length, leb, ◌==◌,
}
use ai_inference_platform.Errors.{ok, Result, Result-cases}
use ai_inference_platform.Ids.{UuidText}
use ai_inference_platform.Models.{UsageLog}
use ai_inference_platform.Session.{World}
use ai_inference_platform.CurrentUser.{CurrentUser, require_role, is_one_of}
use ai_inference_platform.Admin.Reports.Sums.{get_usage_summary-rows}
use ai_inference_platform.Admin.Reports.{
  everyone, or_default, summary_of, UsageSummary, get_usage_summary, Scope, report_scope,
  rows_between, total, a_day, item_of, days_back, DailyUsageItem, get_daily_usage,
}

abbrev pub requests : List DailyUsageItem → ℕ
requests [] = 0
requests (item ∷ items) = item.requests + requests items

abbrev pub tokens : List DailyUsageItem → ℕ
tokens [] = 0
tokens (item ∷ items) = item.tokens + tokens items

abbrev pub day_of : UsageLog → ℕ
day_of l = l.created_at / a_day

abbrev pub between : (first last : ℕ) → UsageLog → Bool
between first last l = leb first (day_of l) && leb (day_of l) last

-- The first of the days and the others make up all.
length-between :
    (first last : ℕ) (rows : List UsageLog)
    → first ≤ last
    → length (select (λ l. day_of l == first) rows)
        + length (select (between (suc first) last) rows)
      ≡ length (select (between first last) rows)
length-between first last [] h = refl
length-between first last (l ∷ ls) h = ground (arith, length-between first last ls h)

total-between :
    (first last : ℕ) (rows : List UsageLog)
    → first ≤ last
    → total (λ l. l.total_tokens) (select (λ l. day_of l == first) rows)
        + total (λ l. l.total_tokens) (select (between (suc first) last) rows)
      ≡ total (λ l. l.total_tokens) (select (between first last) rows)
total-between first last [] h = refl
total-between first last (l ∷ ls) h = ground (arith, total-between first last ls h)

select-one_day :
    (day : ℕ) (rows : List UsageLog)
    → select (λ l. day_of l == day) rows ≡ select (between day day) rows
select-one_day day [] = refl
select-one_day day (l ∷ ls) = ground (arith, select-one_day day ls)

earlier_day : (n first now : ℕ) → first + n ≡ now / a_day → (now - n * a_day) / a_day ≡ first
earlier_day n first now e = omega (arith, e)

days_back-between :
    (n first now : ℕ) (rows : List UsageLog)
    → first + n ≡ now / a_day
    → (requests (days_back n rows now) ≡ length (select (between first (now / a_day)) rows))
      × (tokens (days_back n rows now)
          ≡ total (λ l. l.total_tokens) (select (between first (now / a_day)) rows))
unfolding days_back item_of
days_back-between zero first now rows e =
    let only = select-one_day (now / a_day) rows in
    let is_first : first ≡ now / a_day = omega (arith, e) in
    rw (is_first, only) (omega arith, omega arith)
days_back-between (suc n) first now rows e =
    let (count, sum) = days_back-between n (suc first) now rows (omega (arith, e)) in
    let is_first = earlier_day (suc n) first now e in
    rw (is_first, count, sum)
      (
        length-between first (now / a_day) rows (omega (arith, e)),
        total-between first (now / a_day) rows (omega (arith, e)),
      )

-- The rows of the window fall on its days.
days-window :
    (scope : Scope) (start now first : ℕ) (logs : List UsageLog)
    → first ≡ start / a_day
    → select (between first (now / a_day)) (rows_between scope start now logs)
      ≡ rows_between scope start now logs
unfolding rows_between
days-window scope start now first [] e = refl
days-window scope start now first (l ∷ ls) e =
    ground (arith, days-window scope start now first ls e)

get_daily_usage-rows :
    (now : ℕ) (org_id : Option UuidText) (user : CurrentUser) (w : World)
    (items : List DailyUsageItem)
    → (get_daily_usage now org_id user w).0 ≡ ok items
    → (scope : Scope) × ((report_scope org_id user ≡ ok scope)
        × (items ≡ days_back 14 (rows_between scope (now - 14 * a_day) now w.db.usage_logs) now))
unfolding get_daily_usage require_role
get_daily_usage-rows now org_id user w items got =
    elim (Bool-cases (is_one_of user.role everyone)) [
      | inr stranger ↦ absurd (ground (arith, got, stranger))
      | inl one_of_them ↦ elim (Result-cases (report_scope org_id user)) [
        | inl (e, failed) ↦ absurd (ground (arith, got, one_of_them, failed))
        | inr (scope, scoped) ↦ (scope, (scoped, ground (arith, got, one_of_them, scoped)))
      ]
    ]

-- The days of the daily report add up to the summary that the same user gets from the same moment
-- fourteen days ago: no row is lost between the days or counted twice.
pub daily-adds_up :
    (fromisoformat : Text → Result ℕ) (now : ℕ) (start_date : Text) (org_id : Option UuidText)
    (user : CurrentUser) (w : World) (items : List DailyUsageItem) (r : UsageSummary)
    → 14 * a_day ≤ now
    → or_default fromisoformat (some start_date) (now - 30 * a_day) ≡ ok (now - 14 * a_day)
    → (get_daily_usage now org_id user w).0 ≡ ok items
    → (get_usage_summary fromisoformat now (some start_date) none org_id user w).0 ≡ ok r
    → (requests items ≡ r.total_requests) × (tokens items ≡ r.total_tokens)
unfolding summary_of
daily-adds_up fromisoformat now start_date org_id user w items r late asked daily got =
    let (scope, (scoped, e)) = get_daily_usage-rows now org_id user w items daily in
    let (scope', start, end, (scoped', begun, ended, e')) =
      get_usage_summary-rows fromisoformat now (some start_date) none org_id user w r got in
    let is_scope : scope' ≡ scope = ground arith in
    let is_start : start ≡ now - 14 * a_day = ground arith in
    let is_end : end ≡ now = ground arith in
    let rows = rows_between scope (now - 14 * a_day) now w.db.usage_logs in
    let first = now / a_day - 14 in
    let (count, sum) = days_back-between 14 first now rows (omega (arith, late)) in
    let window =
      days-window scope (now - 14 * a_day) now first w.db.usage_logs (omega (arith, late)) in
    rw (e, e', is_scope, is_start, is_end, count, sum, window) (refl, refl)
