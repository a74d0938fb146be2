-- ===== src/Usage.antt =====
-- backend/app/services/usage_service.py: the rows of the usage log. The database refuses a row whose
-- texts or counters do not fit its columns, or that names a row which is not there.
use ai_inference_platform.Prelude.{
  ℕ, ◌+◌, String, Bool, true, not, ◌&&◌, Option, none, some, List, [], ◌∷◌, ◌++◌, Text, length, leb,
  ltb, ◌==◌, if◌then◌else◌,
}
use ai_inference_platform.Errors.{Result, ok, err, unhandled, data_error, integrity_error}
use ai_inference_platform.Ids.{UuidText, parse_uuid, is_blank}
use ai_inference_platform.Models.{Db, UsageLog}
use ai_inference_platform.Session.{Action, lift, query, raise_if, change, ◌>>=◌, ◌>>◌}
use ai_inference_platform.RefreshTokens.{any}

-- `uuid.UUID(s) if s else None`
unfoldable pub parse_optional : Option UuidText → Result (Option ℕ)
unfolding is_blank parse_uuid
parse_optional none = ok none
parse_optional (some u) =
    if is_blank u then ok none else elim (parse_uuid u) [ ok n ↦ ok (some n) | err e ↦ err e ]

-- The arguments of `log_usage` that its callers give.
pub record Usage : Type 0 where
  pub org_id : UuidText
  pub user_id : UuidText
  pub api_key_id : Option UuidText
  pub model_name : Text
  pub request_id : Text
  pub prompt_tokens : ℕ
  pub completion_tokens : ℕ
  pub status : String

-- `UsageLog(…)`
unfoldable pub usage_row :
    (id now : ℕ) → Usage → (org_id : ℕ) → (user_id api_key_id : Option ℕ) → UsageLog
usage_row id now u org_id user_id api_key_id = record {
  id = id;
  org_id = org_id;
  api_key_id = api_key_id;
  user_id = user_id;
  model_name = u.model_name;
  request_id = u.request_id;
  prompt_tokens = u.prompt_tokens;
  completion_tokens = u.completion_tokens;
  total_tokens = u.prompt_tokens + u.completion_tokens;
  duration_ms = 0;
  ttft_ms = none;
  status = u.status;
  error_code = none;
  created_at = now;
}

-- The columns: texts of limited length and counters of 32 bits, with a sign.
unfoldable pub row_fits : UsageLog → Bool
row_fits row =
    leb (length row.model_name) 100
    && leb (length row.request_id) 36
    && ltb row.total_tokens 2147483648

-- A foreign key that may be null.
abbrev pub is_known : {A : Type 0} → (A → ℕ) → List A → Option ℕ → Bool
is_known id rows none = true
is_known id rows (some n) = any (λ row. id row == n) rows

unfoldable pub refers : Db → UsageLog → Bool
refers db row =
    is_known (λ o. o.id) db.orgs (some row.org_id)
    && is_known (λ u. u.id) db.users row.user_id
    && is_known (λ k. k.id) db.api_keys row.api_key_id

-- `db.add(log_entry)` and `db.flush()`
unfoldable pub insert_usage : UsageLog → Action (Unit {0})
unfolding row_fits refers
insert_usage row = do
  raise_if (not (row_fits row)) (unhandled data_error)
  known ← query (λ db. refers db row)
  raise_if (not known) (unhandled integrity_error)
  change (λ db. record db { usage_logs = db.usage_logs ++ row ∷ [] })

unfoldable pub try_logging : (id now : ℕ) → Usage → Action (Unit {0})
unfolding parse_optional usage_row insert_usage
try_logging id now u = do
  org_id ← lift (parse_uuid u.org_id)
  user_id ← lift (parse_optional (some u.user_id))
  api_key_id ← lift (parse_optional u.api_key_id)
  insert_usage (usage_row id now u org_id user_id api_key_id)

-- Errors are logged, not raised; the session keeps nothing of an insert that failed.
unfoldable pub log_usage : (id now : ℕ) → Usage → Action (Unit {0})
unfolding try_logging
log_usage id now u w = (ok tt, (try_logging id now u w).1)
