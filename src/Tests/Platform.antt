-- ===== src/Tests/Platform.antt =====
-- Examples of the probes, the metrics, the settings and the middleware.
use ai_inference_platform.Prelude.{
  ℕ, ◌*◌, String, ◌≡◌, refl, ap, true, false, Option, none, some, List, [], ◌∷◌, Text, text, arith,
  All, length, if◌then◌else◌, strip, lstrip, rstrip,
}
use ai_inference_platform.Errors.{ok, err, unhandled, type_error}
use ai_inference_platform.RefreshTokens.{any}
use ai_inference_platform.Startup.Pull.{models_to_pull}
use ai_inference_platform.Inference.{ollama}
use ai_inference_platform.Inference.Listing.{Get, unanswered, check_ollama_health}
use ai_inference_platform.Admin.Reports.{total}
use ai_inference_platform.Metrics.{
  Gauges, pos, Answers, collect_periodic_metrics, collect_models, or_zero,
}
use ai_inference_platform.Metrics.Groups.{distinct, has}
use ai_inference_platform.Metrics.Tenants.{org_ids, logs_of, tokens_in, tenant_usage_adds_up}
use ai_inference_platform.Health.{readiness}
use ai_inference_platform.Health.Probes.{engine_down_unseen}
use ai_inference_platform.Config.{joined, parse_allowed_origins}
use ai_inference_platform.Config.Validators.{join, parse_allowed_origins-join}
use ai_inference_platform.Middleware.{
  Request, State, Handler, Starlette, IsStarlette, content, caught, caught_last, create_app,
}
use ai_inference_platform.Middleware.Stack.{answered, lines, with_lines, create_app-answers}
use ai_inference_platform.Tests.Service.{db}

abbrev unset : Gauges
unset = record {
  db_pool_size = 0;
  db_pool_checked_out = 0;
  db_pool_overflow = pos 0;
  db_up = 0;
  total_registered_users = 0;
  active_users_last_15m = 0;
  daily_active_users = 0;
  total_chats_created = 0;
  tenant_chat_count = λ org. none;
  tenant_inference_count = λ org. none;
  tenant_token_count = λ org. none;
  redis_up = 0;
  redis_memory_used = 0;
  redis_keyspace_hits = 0;
  redis_keyspace_misses = 0;
  ollama_up = 0;
  active_models_count = 0;
  ollama_model_status = λ model. none;
}

abbrev no_answer : String → Get
no_answer path = unanswered

abbrev unordered : List (Option Text) → List (Option Text)
unordered names = names

abbrev answers : Answers
answers = record {
  pool = none;
  db_answers = true;
  analytics = 6;
  now = 21 * 86400000000;
  db = db;
  redis = record { ping = false; used_memory = none; keyspace = none };
  get = no_answer;
}

abbrev after : Gauges
after = collect_periodic_metrics unordered ollama answers unset

tenant_usage_adds_up_example :
    ((org : ℕ)
      → (after.tenant_inference_count org
          ≡ (if has org (org_ids db) then some (length (logs_of db org)) else none))
        × (after.tenant_token_count org
            ≡ (if has org (org_ids db) then some (tokens_in (logs_of db org)) else none)))
    × (total (λ org. or_zero (after.tenant_inference_count org)) (distinct (org_ids db)) ≡ 1)
    × (total (λ org. or_zero (after.tenant_token_count org)) (distinct (org_ids db)) ≡ 11)
tenant_usage_adds_up_example = tenant_usage_adds_up unordered ollama answers unset refl

engine_down_unseen_example :
    let g' = collect_models unordered ollama no_answer unset in
    ((readiness (text "1.0.0") ollama no_answer true true).status_code ≡ 503)
    × (g'.ollama_up ≡ 1)
    × (g'.active_models_count ≡ 0)
    × All (λ model. g'.ollama_model_status model ≡ some 0) models_to_pull
engine_down_unseen_example =
    engine_down_unseen unordered (text "1.0.0") ollama no_answer true true unset (λ p names. refl)
      (unfold check_ollama_health in refl)

abbrev origins : List Text
origins = text "http://a.org" ∷ text "http://b.org" ∷ []

parse_allowed_origins-join_example : parse_allowed_origins (joined (join origins)) ≡ origins
parse_allowed_origins-join_example = parse_allowed_origins-join origins (
  (λ e. omega (arith, ap length e), unfold strip lstrip rstrip in refl, unfold any in refl),
  ((λ e. omega (arith, ap length e), unfold strip lstrip rstrip in refl, unfold any in refl), tt),
)

abbrev cors : Handler → Handler
cors next request st =
    if request.is_preflight
    then (ok (record { status_code = 200; x_request_id = none; body = content [] }), st)
    else next request st

abbrev starlette : Starlette
starlette = record {
  cors = cors;
  instrument = λ next request st. next request st;
  exceptions = λ h next request st. caught h (next request st);
  server_error = λ h next request st. caught_last h (next request st);
}

starlette-IsStarlette : IsStarlette starlette
starlette-IsStarlette = record {
  cors-passes = λ next request st simple. rw simple refl;
  instrument-passes = λ next request st. refl;
  exceptions-catch = λ h next request st. refl;
  server_error-catch = λ h next request st. refl;
}

abbrev get : Request
get = record {
  http_method = text "GET";
  path = text "/auth/me";
  x_request_id = some (text "abc");
  is_preflight = false;
}

abbrev crash : Handler
crash request st = (err (unhandled type_error), st)

abbrev state : State
state = record { request_id = some (text "abc"); log = [] }

create_app-answers_example :
    create_app starlette (text "fresh") crash get (record { request_id = none; log = [] }) ≡ (
      ok (answered (text "abc") (err (unhandled type_error))),
      with_lines (lines get (err (unhandled type_error))) state,
    )
create_app-answers_example =
    create_app-answers starlette (text "fresh") crash get (record { request_id = none; log = [] })
      (err (unhandled type_error)) state starlette-IsStarlette refl refl refl
