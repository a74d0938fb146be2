-- ===== src/Tests/Service.antt =====
-- Examples of chat completions and of their rows in the usage log.
use ai_inference_platform.Prelude.{
  ℕ, ◌+◌, ◌*◌, ◌≡◌, refl, true, none, some, [], ◌∷◌, Text, text, arith, length, All,
}
use ai_inference_platform.Ids.{UuidText, canonical, respelt, malformed, parse_uuid}
use ai_inference_platform.Models.{Db, Org, User, UsageLog, empty_db, viewer, local}
use ai_inference_platform.Session.{World, empty_world}
use ai_inference_platform.RefreshTokens.{any}
use ai_inference_platform.Tests.Limits.{whole_doubles}
use ai_inference_platform.RateLimit.{
  Buckets, up, check_rate_limit, token_bucket, live, lesser, refilled, spend,
}
use ai_inference_platform.CurrentUser.{CurrentUser}
use ai_inference_platform.Admission.{init, enter, leave, locked}
use ai_inference_platform.Inference.{
  ollama, Line, event, finished, answer, stream_complete, relay, consume, after_event,
  count_content, report, settle, chunk_of,
}
use ai_inference_platform.Inference.Complete.{Body, response, complete}
use ai_inference_platform.Inference.Complete.Answers.{IsConcluded, complete-IsConcluded}
use ai_inference_platform.Completions.{
  ChatCompletionRequest, Surroundings, State, chat_completions, admit, get_org_limits, serve_stream,
}
use ai_inference_platform.Completions.Rows.{Caller, IsBillable}
use ai_inference_platform.Completions.Billing.{count, is_billed, chat_completions-once}
use ai_inference_platform.Completions.Totals.{chat_completions-IsSummed}
use ai_inference_platform.Admin.Reports.Sums.{IsSummed}

abbrev pub acme : Org
acme = record {
  id = 7;
  name = text "Acme";
  slug = text "acme";
  rate_limit_rpm = 60;
  rate_limit_burst = 10;
  is_active = true;
}

abbrev pub ada : User
ada = record {
  id = 3;
  org_id = 7;
  name = text "Ada";
  email = text "ada@acme.com";
  password_hash = none;
  google_id = none;
  profile_picture = none;
  auth_provider = local;
  role = viewer;
  is_active = true;
  is_verified = true;
  password_set = true;
  last_login_at = none;
}

abbrev pub used : UsageLog
used = record {
  id = 1;
  org_id = 7;
  api_key_id = none;
  user_id = some 3;
  model_name = text "m";
  request_id = text "r";
  prompt_tokens = 5;
  completion_tokens = 6;
  total_tokens = 11;
  duration_ms = 0;
  ttft_ms = none;
  status = "success";
  error_code = none;
  created_at = 20 * 86400000000;
}

abbrev pub db : Db
db = record empty_db { orgs = acme ∷ []; users = ada ∷ []; usage_logs = used ∷ [] }

abbrev pub world : World
world = record empty_world { committed = db; db = db }

abbrev pub caller : CurrentUser
caller = record {
  user_id = canonical 3;
  email = text "ada@acme.com";
  name = text "Ada";
  org_id = canonical 7;
  role = viewer;
  api_key_id = none;
}

abbrev pub number_of : UuidText → ℕ
number_of (canonical n) = n
number_of (respelt n t) = n
number_of (malformed t) = 0

abbrev pub says : Text → Line
says t = event (record {
  content = t;
  done = true;
  prompt_eval_count = 7;
  eval_count = 2;
  finish_reason = none;
  usage = none;
})

abbrev pub body : Text → Body
body t = record {
  content = some t;
  done_reason = some (text "stop");
  prompt_eval_count = 7;
  eval_count = 2;
  model = text "m";
  choices = [];
  usage = (0, 0);
}

abbrev pub env : Surroundings
env = record {
  doubles = whole_doubles;
  fail_open = true;
  redis = up;
  key_of = number_of;
  ms = 5000;
  now = 20 * 86400000000;
  log_id = 2;
  request_id = text "r2";
  engine = ollama;
  upstream = answer 200 (says (text "Hello") ∷ []) finished;
  patience = none;
  post = response 200 (some (body (text "Hello")));
}

abbrev pub req : ChatCompletionRequest
req = record { model = text "m"; stream = true }

abbrev pub no_buckets : Buckets
no_buckets key = none

abbrev state : State
state = record { world = world; slots = init 2; buckets = no_buckets }

abbrev who : Caller
who = record { org = 7; user = 3; key = none }

billable : IsBillable who env caller req db
unfolding any
billable = record {
  org_id = refl;
  user_id = refl;
  api_key_id = refl;
  model = omega arith;
  request = omega arith;
  org_known = refl;
  user_known = refl;
  key_known = refl;
}

chat_completions-once_example :
    length (chat_completions env caller req state).1.world.committed.usage_logs
    ≡ 1 + count (is_billed (chat_completions env caller req state).0)
chat_completions-once_example = chat_completions-once who env caller req state billable (
    unfold chat_completions admit get_org_limits parse_uuid check_rate_limit token_bucket live
      lesser refilled spend serve_stream stream_complete enter leave locked relay consume
      after_event count_content report settle chunk_of in
    (omega arith, tt))

chat_completions-IsSummed_example :
    All IsSummed (chat_completions env caller req state).1.world.committed.usage_logs
chat_completions-IsSummed_example = chat_completions-IsSummed env caller req state (refl, tt)

complete-IsConcluded_example :
    IsConcluded (complete (text "m") ollama (response 200 (some (body (text "Hi")))) (init 2)).0
complete-IsConcluded_example =
    complete-IsConcluded (text "m") ollama (response 200 (some (body (text "Hi")))) (init 2)
