-- ===== src/Admin/Reports/Sums.antt =====
-- The sums of a report: what they add up to, and whose rows they are over.
use ai_inference_platform.Prelude.{
  ℕ, ◌+◌, ◌-◌, ◌*◌, ◌≡◌, refl, Bool, false, ◌&&◌, Option, List, [], ◌∷◌, Text, arith, All, select,
  inl, inr, Bool-cases, leb, ◌==◌, if◌then◌else◌,
}
use ai_inference_platform.Errors.{Result, ok, Result-cases}
use ai_inference_platform.Ids.{UuidText, canonical, parse_uuid}
use ai_inference_platform.Models.{UsageLog, org_admin, platform_admin, role_eq}
use ai_inference_platform.Session.{World}
use ai_inference_platform.CurrentUser.{CurrentUser, require_role, is_one_of}
use ai_inference_platform.Admin.Reports.{
  a_day, is_id, Scope, of_org, of_user, covers, report_scope, rows_between, total, summary_of,
  UsageSummary, get_usage_summary, or_default, everyone,
}

-- The total that a row has is that of its prompt and its completion.
abbrev pub IsSummed : UsageLog → Type 0
IsSummed l = l.total_tokens ≡ l.prompt_tokens + l.completion_tokens

All-select :
    (P : UsageLog → Type 0) (p : UsageLog → Bool) (ls : List UsageLog)
    → All P ls
    → All P (select p ls)
All-select P p [] h = tt
All-select P p (l ∷ ls) (one, h) = elim (Bool-cases (p l)) [
  | inl kept ↦ rw kept (one, All-select P p ls h)
  | inr left ↦ rw left (All-select P p ls h)
]

total-IsSummed :
    (ls : List UsageLog)
    → All IsSummed ls
    → total (λ l. l.total_tokens) ls
      ≡ total (λ l. l.prompt_tokens) ls + total (λ l. l.completion_tokens) ls
total-IsSummed [] h = refl
total-IsSummed (l ∷ ls) (one, h) = omega (arith, one, total-IsSummed ls h)

summary_of-IsSummed :
    (ls : List UsageLog)
    → All IsSummed ls
    → (summary_of ls).total_tokens
      ≡ (summary_of ls).prompt_tokens + (summary_of ls).completion_tokens
unfolding summary_of
summary_of-IsSummed ls h = total-IsSummed ls h

-- What a summary is of, if it is given.
pub get_usage_summary-rows :
    (fromisoformat : Text → Result ℕ) (now : ℕ) (start_date end_date : Option Text)
    (org_id : Option UuidText) (user : CurrentUser) (w : World) (r : UsageSummary)
    → (get_usage_summary fromisoformat now start_date end_date org_id user w).0 ≡ ok r
    → (scope : Scope) × (start : ℕ) × (end : ℕ) × ((report_scope org_id user ≡ ok scope)
        × (or_default fromisoformat start_date (now - 30 * a_day) ≡ ok start)
        × (or_default fromisoformat end_date now ≡ ok end)
        × (r ≡ summary_of (rows_between scope start end w.db.usage_logs)))
unfolding get_usage_summary require_role
get_usage_summary-rows fromisoformat now start_date end_date org_id user w r got =
    elim (Bool-cases (is_one_of user.role everyone)) [
      | inr stranger ↦ absurd (ground (arith, got, stranger))
      | inl one_of_them ↦ elim (Result-cases (report_scope org_id user)) [
        | inl (e, failed) ↦ absurd (ground (arith, got, one_of_them, failed))
        | inr (scope, scoped) ↦
            elim (Result-cases (or_default fromisoformat start_date (now - 30 * a_day))) [
              | inl (e, failed) ↦ absurd (ground (arith, got, one_of_them, scoped, failed))
              | inr (start, begun) ↦ elim (Result-cases (or_default fromisoformat end_date now)) [
                | inl (e, failed) ↦ absurd (ground (arith, got, one_of_them, scoped, begun, failed))
                | inr (end, ended) ↦ (
                  scope,
                  start,
                  end,
                  (scoped, begun, ended, ground (arith, got, one_of_them, scoped, begun, ended)),
                )
              ]
            ]
      ]
    ]

-- Where every row of the log has a total that adds up, so has every summary, whatever the dates and
-- whoever asks.
pub get_usage_summary-IsSummed :
    (fromisoformat : Text → Result ℕ) (now : ℕ) (start_date end_date : Option Text)
    (org_id : Option UuidText) (user : CurrentUser) (w : World) (r : UsageSummary)
    → (get_usage_summary fromisoformat now start_date end_date org_id user w).0 ≡ ok r
    → All IsSummed w.db.usage_logs
    → r.total_tokens ≡ r.prompt_tokens + r.completion_tokens
unfolding rows_between
get_usage_summary-IsSummed fromisoformat now start_date end_date org_id user w r got h =
    let (scope, start, end, (scoped, begun, ended, e)) =
      get_usage_summary-rows fromisoformat now start_date end_date org_id user w r got in
    rw e (
      summary_of-IsSummed (rows_between scope start end w.db.usage_logs) (
        All-select IsSummed (λ l. covers scope l && leb start l.created_at && leb l.created_at end)
          w.db.usage_logs h))

-- The rows that a user who is no platform administrator may have reported: those of the
-- organization for an org admin, otherwise the user's own.
abbrev pub may_see : CurrentUser → (org user_id : ℕ) → UsageLog → Bool
may_see user org user_id l =
    if role_eq user.role org_admin then l.org_id == org else is_id user_id l.user_id

abbrev pub seen_by : CurrentUser → (org user_id : ℕ) → World → World
seen_by user org user_id w = record w {
  db = record w.db { usage_logs = select (may_see user org user_id) w.db.usage_logs };
}

rows_between-select :
    (scope : Scope) (start end : ℕ) (p : UsageLog → Bool) (ls : List UsageLog)
    → ((l : UsageLog) → covers scope l ≡ p l)
    → rows_between scope start end (select p ls) ≡ rows_between scope start end ls
unfolding rows_between
rows_between-select scope start end p [] same = refl
rows_between-select scope start end p (l ∷ ls) same =
    let one = same l in
    let rest = rows_between-select scope start end p ls same in
    elim (Bool-cases (p l)) [
      | inl kept ↦ ground (arith, one, rest, kept)
      | inr left ↦ ground (arith, one, rest, left)
    ]

-- A user who is no platform administrator has a scope, that of what the user may see.
scope_of_user :
    (org_id : Option UuidText) (user : CurrentUser) (org user_id : ℕ)
    → role_eq user.role platform_admin ≡ false
    → user.org_id ≡ canonical org
    → user.user_id ≡ canonical user_id
    → (scope : Scope) × ((report_scope org_id user ≡ ok scope)
        × ((l : UsageLog) → covers scope l ≡ may_see user org user_id l))
unfolding report_scope covers parse_uuid
scope_of_user org_id user org user_id no_admin of_the_org of_the_user =
    elim (Bool-cases (role_eq user.role org_admin)) [
      | inl admin ↦
          (of_org org, rw (report_scope, no_admin, admin, of_the_org, parse_uuid) (refl, λ l. refl))
      | inr other ↦ (
        of_user user_id,
        rw (report_scope, no_admin, other, of_the_user, parse_uuid) (refl, λ l. refl),
      )
    ]

-- Whatever a user who is no platform administrator asks for, the summary is as if the log had no
-- rows but the organization's, for an org admin, or the user's own.
pub get_usage_summary-seen_by :
    (fromisoformat : Text → Result ℕ) (now : ℕ) (start_date end_date : Option Text)
    (org_id : Option UuidText) (user : CurrentUser) (w : World) (org user_id : ℕ)
    → role_eq user.role platform_admin ≡ false
    → user.org_id ≡ canonical org
    → user.user_id ≡ canonical user_id
    → (get_usage_summary fromisoformat now start_date end_date org_id user w).0
      ≡ (get_usage_summary fromisoformat now start_date end_date org_id user
          (seen_by user org user_id w)).0
unfolding get_usage_summary require_role
get_usage_summary-seen_by fromisoformat now start_date end_date org_id user w org user_id no_admin
      of_the_org of_the_user =
    let (scope, (scoped, same)) =
      scope_of_user org_id user org user_id no_admin of_the_org of_the_user in
    let begun = or_default fromisoformat start_date (now - 30 * a_day) in
    let ended = or_default fromisoformat end_date now in
    elim (Bool-cases (is_one_of user.role everyone)) [
      | inr stranger ↦ ground (arith, stranger)
      | inl one_of_them ↦ elim (Result-cases begun) [
        | inl (e, failed) ↦ ground (arith, one_of_them, scoped, failed)
        | inr (start, e) ↦ elim (Result-cases ended) [
          | inl (e', failed) ↦ ground (arith, one_of_them, scoped, e, failed)
          | inr (end, e') ↦
              let same_rows =
                rows_between-select scope start end (may_see user org user_id) w.db.usage_logs
                  same in
              ground (arith, one_of_them, scoped, e, e', same_rows)
        ]
      ]
    ]
