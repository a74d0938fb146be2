-- ===== src/Completions/Totals.antt =====
-- Every row that chat completions log has a total that adds up.
use ai_inference_platform.Prelude.{
  ℕ, refl, Bool, true, false, inl, inr, List, [], ◌∷◌, ◌++◌, All, arith, some,
}
use ai_inference_platform.Errors.{Result, ok, err, Result-cases}
use ai_inference_platform.Ids.{parse_uuid}
use ai_inference_platform.Models.{UsageLog}
use ai_inference_platform.Session.{World}
use ai_inference_platform.CurrentUser.{CurrentUser}
use ai_inference_platform.Inference.{stream_complete}
use ai_inference_platform.Inference.Complete.{ChatCompletionResponse, complete}
use ai_inference_platform.Usage.{
  Usage, usage_row, insert_usage, try_logging, log_usage, parse_optional,
}
use ai_inference_platform.Completions.{
  ChatCompletionRequest, Surroundings, State, log_afresh, on_complete, log_answer, admit, serve_by,
  serve_admitted, serve_stream, serve_whole, chat_completions, stream_status, usage_of,
}
use ai_inference_platform.Admin.Reports.Sums.{IsSummed}

All-IsSummed-append :
    (ls : List UsageLog) (l : UsageLog) → All IsSummed ls → IsSummed l → All IsSummed (ls ++ l ∷ [])
All-IsSummed-append [] l h one = (one, tt)
All-IsSummed-append (m ∷ ls) l (first, h) one = (first, All-IsSummed-append ls l h one)

insert_usage-IsSummed :
    (row : UsageLog) (w : World)
    → IsSummed row
    → All IsSummed w.db.usage_logs
    → All IsSummed (insert_usage row w).1.db.usage_logs
unfolding insert_usage
insert_usage-IsSummed row w one h = ground (arith, All-IsSummed-append w.db.usage_logs row h one)

try_logging-IsSummed :
    (id now : ℕ) (u : Usage) (w : World)
    → All IsSummed w.db.usage_logs
    → All IsSummed (try_logging id now u w).1.db.usage_logs
unfolding try_logging usage_row
try_logging-IsSummed id now u w h = elim (Result-cases (parse_uuid u.org_id)) [
  | inl (e, failed) ↦ rw (try_logging, failed) h
  | inr (org_id, a) ↦ elim (Result-cases (parse_optional (some u.user_id))) [
    | inl (e, failed) ↦ rw (try_logging, a, failed) h
    | inr (user_id, b) ↦ elim (Result-cases (parse_optional u.api_key_id)) [
      | inl (e, failed) ↦ rw (try_logging, a, b, failed) h
      | inr (key_id, c) ↦
          rw (try_logging, a, b, c)
            (insert_usage-IsSummed (usage_row id now u org_id user_id key_id) w refl h)
    ]
  ]
]

log_afresh-IsSummed :
    (id now : ℕ) (u : Usage) (w : World)
    → All IsSummed w.committed.usage_logs
    → All IsSummed (log_afresh id now u w).committed.usage_logs
unfolding log_afresh log_usage
log_afresh-IsSummed id now u w h = try_logging-IsSummed id now u (record w { db = w.committed }) h

on_complete-IsSummed :
    (env : Surroundings) (user : CurrentUser) (req : ChatCompletionRequest)
    (completions : List (ℕ × ℕ)) (w : World)
    → All IsSummed w.committed.usage_logs
    → All IsSummed (on_complete env user req completions w).committed.usage_logs
unfolding on_complete
on_complete-IsSummed env user req [] w h = h
on_complete-IsSummed env user req (tokens ∷ rest) w h =
    let u = usage_of env user req tokens (stream_status tokens) in
    on_complete-IsSummed env user req rest (log_afresh env.log_id env.now u w)
      (log_afresh-IsSummed env.log_id env.now u w h)

log_answer-IsSummed :
    (env : Surroundings) (user : CurrentUser) (req : ChatCompletionRequest)
    (result : Result ChatCompletionResponse) (w : World)
    → All IsSummed w.committed.usage_logs
    → All IsSummed (log_answer env user req result w).1.committed.usage_logs
unfolding log_answer
log_answer-IsSummed env user req (err e) w h = h
log_answer-IsSummed env user req (ok r) w h =
    let tokens : ℕ × ℕ = (r.usage.prompt_tokens, r.usage.completion_tokens) in
    log_afresh-IsSummed env.log_id env.now (usage_of env user req tokens "success") w h

serve_by-IsSummed :
    (stream : Bool) (env : Surroundings) (user : CurrentUser) (req : ChatCompletionRequest)
    (s : State)
    → All IsSummed s.world.committed.usage_logs
    → All IsSummed (serve_by stream env user req s).1.world.committed.usage_logs
unfolding serve_stream serve_whole
serve_by-IsSummed true env user req s h =
    let o = (stream_complete env.engine env.upstream env.patience s.slots).0 in
    on_complete-IsSummed env user req o.completions s.world h
serve_by-IsSummed false env user req s h =
    let result = (complete req.model env.engine env.post s.slots).0.result in
    log_answer-IsSummed env user req result s.world h

serve_admitted-IsSummed :
    (env : Surroundings) (user : CurrentUser) (req : ChatCompletionRequest)
    (admitted : Result (Unit {0}) × State)
    → All IsSummed admitted.1.world.committed.usage_logs
    → All IsSummed (serve_admitted env user req admitted).1.world.committed.usage_logs
serve_admitted-IsSummed env user req (err e, s) h = h
serve_admitted-IsSummed env user req (ok done, s) h = serve_by-IsSummed req.stream env user req s h

-- Whatever a request, the engine and the client do, the log keeps rows only whose total is that of
-- the prompt and the completion.
pub chat_completions-IsSummed :
    (env : Surroundings) (user : CurrentUser) (req : ChatCompletionRequest) (s : State)
    → All IsSummed s.world.committed.usage_logs
    → All IsSummed (chat_completions env user req s).1.world.committed.usage_logs
unfolding chat_completions admit
chat_completions-IsSummed env user req s h =
    serve_admitted-IsSummed env user req (admit env user s) h
