-- ===== src/Completions/Rows.antt =====
-- The rows of the usage log that the callbacks of chat completions add.
use ai_inference_platform.Prelude.{
  ℕ, ◌+◌, ◌≤◌, ◌<◌, ◌≡◌, refl, true, Option, none, some, List, [], ◌∷◌, ◌++◌, arith, length, All,
  String, ◌==◌, ap, zero, suc, ◌∙◌,
}
use mathlib.Core.List.{append-nil, append_assoc}
use ai_inference_platform.Errors.{ok}
use ai_inference_platform.Ids.{UuidText, canonical, parse_uuid, is_blank}
use ai_inference_platform.Models.{Db, UsageLog}
use ai_inference_platform.Session.{World}
use ai_inference_platform.RefreshTokens.{any}
use ai_inference_platform.CurrentUser.{CurrentUser}
use ai_inference_platform.Usage.{
  usage_row, row_fits, refers, parse_optional, insert_usage, try_logging, log_usage, is_known,
}
use ai_inference_platform.Completions.{
  usage_of, log_afresh, stream_status, on_complete, ChatCompletionRequest, Surroundings,
}

-- The ids of a caller, in their canonical spelling.
pub record Caller : Type 0 where
  pub org : ℕ
  pub user : ℕ
  pub key : Option ℕ

abbrev pub spelt : Option ℕ → Option UuidText
spelt none = none
spelt (some n) = some (canonical n)

-- The caller's rows are there, and the model and the request id fit their columns.
pub record IsBillable (c : Caller) (env : Surroundings) (user : CurrentUser)
    (req : ChatCompletionRequest) (db : Db) : Type 0 where
  pub org_id : user.org_id ≡ canonical c.org
  pub user_id : user.user_id ≡ canonical c.user
  pub api_key_id : user.api_key_id ≡ spelt c.key
  pub model : length req.model ≤ 100
  pub request : length env.request_id ≤ 36
  pub org_known : any (λ o. o.id == c.org) db.orgs ≡ true
  pub user_known : any (λ u. u.id == c.user) db.users ≡ true
  pub key_known : is_known (λ k. k.id) db.api_keys c.key ≡ true

-- The row that a completion with such tokens is to have: of the caller, the model and the request
-- asked for, with these tokens and their sum.
abbrev pub bill :
    Caller
    → Surroundings
    → CurrentUser
    → ChatCompletionRequest
    → (status : String) → ℕ × ℕ
    → UsageLog
bill c env user req status (prompt, completion) = record {
  id = env.log_id;
  org_id = c.org;
  api_key_id = c.key;
  user_id = some c.user;
  model_name = req.model;
  request_id = env.request_id;
  prompt_tokens = prompt;
  completion_tokens = completion;
  total_tokens = prompt + completion;
  duration_ms = 0;
  ttft_ms = none;
  status = status;
  error_code = none;
  created_at = env.now;
}

-- A stream that was left before any token is a cancelled one.
abbrev pub ending : ℕ × ℕ → String
ending (zero, zero) = "cancelled"
ending (zero, suc n) = "success"
ending (suc n, completion) = "success"

abbrev pub with_logs : List UsageLog → Db → Db
with_logs rows db = record db { usage_logs = db.usage_logs ++ rows }

parse_optional-spelt : (k : Option ℕ) → parse_optional (spelt k) ≡ ok k
unfolding parse_optional is_blank parse_uuid
parse_optional-spelt none = refl
parse_optional-spelt (some n) = refl

insert_usage-adds :
    (row : UsageLog) (w : World)
    → row_fits row ≡ true
    → refers w.db row ≡ true
    → insert_usage row w ≡ (ok tt, record w { db = with_logs (row ∷ []) w.db })
unfolding insert_usage
insert_usage-adds row w fine known = rw (insert_usage, fine, known) refl

bill-row_fits :
    (c : Caller) (env : Surroundings) (user : CurrentUser) (req : ChatCompletionRequest) (db : Db)
    (status : String) (p q : ℕ)
    → IsBillable c env user req db
    → p + q < 2147483648
    → row_fits (bill c env user req status (p, q)) ≡ true
unfolding row_fits
bill-row_fits c env user req db status p q h small = ground (arith, h.model, h.request)

bill-refers :
    (c : Caller) (env : Surroundings) (user : CurrentUser) (req : ChatCompletionRequest) (db : Db)
    (status : String) (p q : ℕ)
    → IsBillable c env user req db
    → refers db (bill c env user req status (p, q)) ≡ true
unfolding refers
bill-refers c env user req db status p q h = rw (h.org_known, h.user_known, h.key_known) refl

try_logging-adds :
    (c : Caller) (env : Surroundings) (user : CurrentUser) (req : ChatCompletionRequest) (w : World)
    (status : String) (p q : ℕ)
    → IsBillable c env user req w.db
    → p + q < 2147483648
    → try_logging env.log_id env.now (usage_of env user req (p, q) status) w
      ≡ (ok tt, record w { db = with_logs (bill c env user req status (p, q) ∷ []) w.db })
unfolding try_logging parse_uuid is_blank usage_row
try_logging-adds c env user req w status p q h small =
    rw (try_logging, h.org_id, h.user_id, h.api_key_id, parse_uuid, parse_optional-spelt c.key)
      (insert_usage-adds (bill c env user req status (p, q)) w
        (bill-row_fits c env user req w.db status p q h small)
        (bill-refers c env user req w.db status p q h))

pub log_afresh-adds :
    (c : Caller) (env : Surroundings) (user : CurrentUser) (req : ChatCompletionRequest) (w : World)
    (status : String) (p q : ℕ)
    → IsBillable c env user req w.committed
    → p + q < 2147483648
    → (log_afresh env.log_id env.now (usage_of env user req (p, q) status) w).committed
      ≡ with_logs (bill c env user req status (p, q) ∷ []) w.committed
unfolding log_afresh log_usage
log_afresh-adds c env user req w status p q h small =
    rw
      (
        log_afresh,
        log_usage,
        try_logging-adds c env user req (record w { db = w.committed }) status p q h small,
      )
      refl

-- A bill does not depend on the rows of the usage log.
with_logs-IsBillable :
    {c : Caller} {env : Surroundings} {user : CurrentUser} {req : ChatCompletionRequest}
    (rows : List UsageLog) (db : Db)
    → IsBillable c env user req db
    → IsBillable c env user req (with_logs rows db)
with_logs-IsBillable rows db h = record {
  org_id = h.org_id;
  user_id = h.user_id;
  api_key_id = h.api_key_id;
  model = h.model;
  request = h.request;
  org_known = h.org_known;
  user_known = h.user_known;
  key_known = h.key_known;
}

abbrev pub IsSmall : ℕ × ℕ → Type 0
IsSmall (p, q) = p + q < 2147483648

abbrev pub stream_bills :
    Caller → Surroundings → CurrentUser → ChatCompletionRequest → List (ℕ × ℕ) → List UsageLog
stream_bills c env user req [] = []
stream_bills c env user req (tokens ∷ rest) =
    bill c env user req (ending tokens) tokens ∷ stream_bills c env user req rest

pub with_logs-nil : (db : Db) → db ≡ with_logs [] db
with_logs-nil db = rw (append-nil db.usage_logs) refl

with_logs-append :
    (xs ys : List UsageLog) (db : Db) → with_logs ys (with_logs xs db) ≡ with_logs (xs ++ ys) db
with_logs-append xs ys db = rw (append_assoc db.usage_logs xs ys) refl

log_afresh-IsBillable :
    (c : Caller) (env : Surroundings) (user : CurrentUser) (req : ChatCompletionRequest) (w : World)
    (status : String) (p q : ℕ)
    → IsBillable c env user req w.committed
    → p + q < 2147483648
    → IsBillable c env user req
        (log_afresh env.log_id env.now (usage_of env user req (p, q) status) w).committed
log_afresh-IsBillable c env user req w status p q h small =
    rw (log_afresh-adds c env user req w status p q h small)
      (with_logs-IsBillable (bill c env user req status (p, q) ∷ []) w.committed h)

stream_status-ending : (p q : ℕ) → stream_status (p, q) ≡ ending (p, q)
unfolding stream_status
stream_status-ending zero zero = refl
stream_status-ending zero (suc q) = ground arith
stream_status-ending (suc p) q = ground arith

pub on_complete-bills :
    (c : Caller) (env : Surroundings) (user : CurrentUser) (req : ChatCompletionRequest)
    (completions : List (ℕ × ℕ)) (w : World)
    → IsBillable c env user req w.committed
    → All IsSmall completions
    → (on_complete env user req completions w).committed
      ≡ with_logs (stream_bills c env user req completions) w.committed
unfolding on_complete
on_complete-bills c env user req [] w h small = with_logs-nil w.committed
on_complete-bills c env user req ((p, q) ∷ rest) w h (one, small) =
    let status = ending (p, q) in
    let logged = log_afresh env.log_id env.now (usage_of env user req (p, q) status) w in
    let more = stream_bills c env user req rest in
    rw (on_complete, stream_status-ending p q)
      (on_complete-bills c env user req rest logged
          (log_afresh-IsBillable c env user req w status p q h one) small
        ∙ ap (with_logs more) (log_afresh-adds c env user req w status p q h one)
        ∙ with_logs-append (bill c env user req status (p, q) ∷ []) more w.committed)
