-- ===== src/Completions.antt =====
-- backend/app/routers/inference.py: chat completions, from the limits of the organization to the row
-- of the usage log.
--
-- The session that FastAPI injects is rolled back before the inference; usage is logged in a fresh
-- one. A session whose flush has failed refuses to commit, and the handler goes on either way.
pub mod Rows
pub mod Billing
pub mod Totals
use ai_inference_platform.Prelude.{
  ℕ, ◌+◌, String, Bool, true, false, not, ◌&&◌, ◌||◌, Option, none, some, List, [], ◌∷◌, ◌++◌, Text,
  length, find, leb, ltb, ◌==◌, if◌then◌else◌,
}
use ai_inference_platform.Errors.{
  Error, Result, ok, err, app_error, unhandled, rate_limit, default_message, data_error,
  integrity_error,
}
use ai_inference_platform.Ids.{UuidText, parse_uuid, is_blank}
use ai_inference_platform.Models.{Db, Org, UsageLog}
use ai_inference_platform.Session.{
  World, Action, pure, raise, lift, query, raise_if, change, commit, ◌>>=◌, ◌>>◌,
}
use ai_inference_platform.RateLimit.{Doubles, Buckets, Redis, check_rate_limit}
use ai_inference_platform.RefreshTokens.{any}
use ai_inference_platform.CurrentUser.{CurrentUser}
use ai_inference_platform.Admission.{Slots}
use ai_inference_platform.Inference.{Engine, Upstream, Outcome, stream_complete}
use ai_inference_platform.Inference.Complete.{Post, ChatCompletionResponse, Completion, complete}
use ai_inference_platform.Usage.{Usage, log_usage}

-- `async with factory() as fresh_db`: the log and the commit, in a session of its own.
unfoldable pub log_afresh : (id now : ℕ) → Usage → World → World
unfolding log_usage
log_afresh id now u w = (commit (log_usage id now u (record w { db = w.committed })).1).1

-- Of a request, the model and whether to stream; the rest is passed on to the engine.
pub record ChatCompletionRequest : Type 0 where
  pub model : Text
  pub stream : Bool

-- What a request meets: the arithmetic of doubles, the settings, Redis, the clocks, the ids that are drawn, the engine and the
-- client. `key_of` numbers the strings that spell the ids of organizations.
pub record Surroundings : Type 0 where
  pub doubles : Doubles
  pub fail_open : Bool
  pub redis : Redis
  pub key_of : UuidText → ℕ
  pub ms : ℕ
  pub now : ℕ
  pub log_id : ℕ
  pub request_id : Text
  pub engine : Engine
  pub upstream : Upstream
  pub patience : Option ℕ
  pub post : Post

pub record State : Type 0 where
  pub world : World
  pub slots : Slots
  pub buckets : Buckets

abbrev pub org_by_id : ℕ → Db → Option Org
org_by_id id db = find (λ o. o.id == id) db.orgs

-- The row's limits, or the defaults where the id is malformed or there is no row.
unfoldable pub get_org_limits : (org_id : UuidText) → Db → ℕ × ℕ
unfolding parse_uuid
get_org_limits org_id db = elim (parse_uuid org_id) [
  | err e ↦ (60, 10)
  | ok id ↦ elim (org_by_id id db) [
    | none ↦ (60, 10)
    | some org ↦ (org.rate_limit_rpm, org.rate_limit_burst)
  ]
]

-- `chat_completions` up to the inference, with both its rollbacks.
unfoldable pub admit : Surroundings → CurrentUser → State → Result (Unit {0}) × State
unfolding get_org_limits check_rate_limit
admit env user s =
    let (rpm, burst) = get_org_limits user.org_id s.world.db in
    let ((allowed, retry_after), buckets) =
      check_rate_limit env.doubles env.fail_open env.redis (env.key_of user.org_id) rpm burst env.ms
        s.buckets in
    let kind = rate_limit retry_after in
    (
      if allowed then ok tt else err (app_error kind (default_message kind)),
      record s { world = record s.world { db = s.world.committed }; buckets = buckets },
    )

abbrev pub usage_of :
    Surroundings → CurrentUser → ChatCompletionRequest → ℕ × ℕ → (status : String) → Usage
usage_of env user req (prompt, completion) status = record {
  org_id = user.org_id;
  user_id = user.user_id;
  api_key_id = user.api_key_id;
  model_name = req.model;
  request_id = env.request_id;
  prompt_tokens = prompt;
  completion_tokens = completion;
  status = status;
}

unfoldable pub stream_status : ℕ × ℕ → String
stream_status (prompt, completion) =
    if ltb 0 prompt || ltb 0 completion then "success" else "cancelled"

-- `on_complete_callback`, called for each completion of the stream.
unfoldable pub on_complete :
    Surroundings → CurrentUser → ChatCompletionRequest → List (ℕ × ℕ) → World → World
unfolding log_afresh stream_status
on_complete env user req [] w = w
on_complete env user req (tokens ∷ completions) w =
    on_complete env user req completions
      (log_afresh env.log_id env.now (usage_of env user req tokens (stream_status tokens)) w)

-- What a client gets: a stream, or an answer in one piece.
pub data Served : Type 0 where
  streamed : Outcome → Served
  answered : ChatCompletionResponse → Served

unfoldable pub serve_stream :
    Surroundings → CurrentUser → ChatCompletionRequest → State → Result Served × State
unfolding on_complete
serve_stream env user req s =
    let (outcome, slots) = stream_complete env.engine env.upstream env.patience s.slots in
    (
      ok (streamed outcome),
      record s { world = on_complete env user req outcome.completions s.world; slots = slots },
    )

unfoldable pub log_answer :
    Surroundings
    → CurrentUser
    → ChatCompletionRequest
    → Result ChatCompletionResponse
    → World
    → Result Served × World
unfolding log_afresh
log_answer env user req (err e) w = (err e, w)
log_answer env user req (ok r) w = (
  ok (answered r),
  log_afresh env.log_id env.now
      (usage_of env user req (r.usage.prompt_tokens, r.usage.completion_tokens) "success") w,
)

unfoldable pub serve_whole :
    Surroundings → CurrentUser → ChatCompletionRequest → State → Result Served × State
unfolding log_answer
serve_whole env user req s =
    let (completion, slots) = complete req.model env.engine env.post s.slots in
    let (result, world) = log_answer env user req completion.result s.world in
    (result, record s { world = world; slots = slots })

abbrev pub serve_by :
    (stream : Bool)
    → Surroundings
    → CurrentUser
    → ChatCompletionRequest
    → State
    → Result Served × State
serve_by true env user req s = serve_stream env user req s
serve_by false env user req s = serve_whole env user req s

abbrev pub serve_admitted :
    Surroundings
    → CurrentUser
    → ChatCompletionRequest
    → Result (Unit {0}) × State
    → Result Served × State
serve_admitted env user req (err e, s) = (err e, s)
serve_admitted env user req (ok done, s) = serve_by req.stream env user req s

unfoldable pub chat_completions :
    Surroundings → CurrentUser → ChatCompletionRequest → State → Result Served × State
unfolding admit serve_stream serve_whole
chat_completions env user req s = serve_admitted env user req (admit env user s)
