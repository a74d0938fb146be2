-- ===== src/Completions/Billing.antt =====
-- What the usage log gets of a chat completion.
use ai_inference_platform.Prelude.{
  suc, length, ap, ◌∙◌, ◌+◌, inl, inr, Option, length-append, Bool-cases, ℕ, ◌≡◌, refl, Bool, true,
  false, not, is_some, List, [], ◌∷◌, All,
}
use ai_inference_platform.Admission.{Slots, locked, enter}
use ai_inference_platform.Inference.{Engine, Upstream, stream_complete}
use ai_inference_platform.Inference.Streams.{stream_complete-IsSettled, stream_complete-slots}
use ai_inference_platform.Errors.{Result, ok, err}
use ai_inference_platform.Models.{UsageLog}
use ai_inference_platform.Session.{World}
use ai_inference_platform.CurrentUser.{CurrentUser}
use ai_inference_platform.Inference.Complete.Answers.{complete-slots}
use ai_inference_platform.Inference.Complete.{ChatCompletionResponse, complete}
use ai_inference_platform.Completions.{
  ChatCompletionRequest, Surroundings, State, Served, streamed, answered, admit, serve_by,
  serve_admitted, serve_stream, serve_whole, log_answer, chat_completions,
}
use ai_inference_platform.Completions.Rows.{
  Caller, IsBillable, IsSmall, bill, stream_bills, with_logs, with_logs-nil, log_afresh-adds,
  on_complete-bills,
}

admit-keeps :
    (env : Surroundings) (user : CurrentUser) (s : State)
    → ((admit env user s).1.world.committed ≡ s.world.committed)
      × ((admit env user s).1.slots ≡ s.slots)
unfolding admit
admit-keeps env user s = (refl, refl)

-- The rows that what a client gets is to leave.
abbrev pub bills :
    Caller → Surroundings → CurrentUser → ChatCompletionRequest → Result Served → List UsageLog
bills c env user req (err e) = []
bills c env user req (ok (streamed o)) = stream_bills c env user req o.completions
bills c env user req (ok (answered r)) =
    bill c env user req "success" (r.usage.prompt_tokens, r.usage.completion_tokens) ∷ []

abbrev pub AreSmall : Result Served → Type 0
AreSmall (err e) = Unit
AreSmall (ok (streamed o)) = All IsSmall o.completions
AreSmall (ok (answered r)) = IsSmall (r.usage.prompt_tokens, r.usage.completion_tokens)

-- Only rows of the usage log are added, and the slots are as before.
abbrev pub IsBilled :
    Caller
    → Surroundings
    → CurrentUser
    → ChatCompletionRequest
    → State
    → Result Served × State
    → Type 0
IsBilled c env user req s (result, s') =
    (s'.world.committed ≡ with_logs (bills c env user req result) s.world.committed)
    × (s'.slots ≡ s.slots)

serve_stream-bills :
    (c : Caller) (env : Surroundings) (user : CurrentUser) (req : ChatCompletionRequest) (s : State)
    → IsBillable c env user req s.world.committed
    → AreSmall (serve_stream env user req s).0
    → IsBilled c env user req s (serve_stream env user req s)
unfolding serve_stream
serve_stream-bills c env user req s h small =
    let o = (stream_complete env.engine env.upstream env.patience s.slots).0 in
    (
      on_complete-bills c env user req o.completions s.world h small,
      stream_complete-slots env.engine env.upstream env.patience s.slots,
    )

log_answer-bills :
    (c : Caller) (env : Surroundings) (user : CurrentUser) (req : ChatCompletionRequest)
    (result : Result ChatCompletionResponse) (w : World)
    → IsBillable c env user req w.committed
    → AreSmall (log_answer env user req result w).0
    → (log_answer env user req result w).1.committed
      ≡ with_logs (bills c env user req (log_answer env user req result w).0) w.committed
unfolding log_answer
log_answer-bills c env user req (err e) w h small = with_logs-nil w.committed
log_answer-bills c env user req (ok r) w h small =
    log_afresh-adds c env user req w "success" r.usage.prompt_tokens r.usage.completion_tokens h
      small

serve_whole-bills :
    (c : Caller) (env : Surroundings) (user : CurrentUser) (req : ChatCompletionRequest) (s : State)
    → IsBillable c env user req s.world.committed
    → AreSmall (serve_whole env user req s).0
    → IsBilled c env user req s (serve_whole env user req s)
unfolding serve_whole
serve_whole-bills c env user req s h small =
    let result = (complete req.model env.engine env.post s.slots).0.result in
    (
      log_answer-bills c env user req result s.world h small,
      complete-slots req.model env.engine env.post s.slots,
    )

serve_by-bills :
    (stream : Bool) (c : Caller) (env : Surroundings) (user : CurrentUser)
    (req : ChatCompletionRequest) (s : State)
    → IsBillable c env user req s.world.committed
    → AreSmall (serve_by stream env user req s).0
    → IsBilled c env user req s (serve_by stream env user req s)
serve_by-bills true c env user req s h small = serve_stream-bills c env user req s h small
serve_by-bills false c env user req s h small = serve_whole-bills c env user req s h small

serve_admitted-bills :
    (c : Caller) (env : Surroundings) (user : CurrentUser) (req : ChatCompletionRequest)
    (admitted : Result (Unit {0}) × State)
    → IsBillable c env user req admitted.1.world.committed
    → AreSmall (serve_admitted env user req admitted).0
    → IsBilled c env user req admitted.1 (serve_admitted env user req admitted)
serve_admitted-bills c env user req (err e, s) h small = (with_logs-nil s.world.committed, refl)
serve_admitted-bills c env user req (ok done, s) h small =
    serve_by-bills req.stream c env user req s h small

pub chat_completions-bills :
    (c : Caller) (env : Surroundings) (user : CurrentUser) (req : ChatCompletionRequest) (s : State)
    → IsBillable c env user req s.world.committed
    → AreSmall (chat_completions env user req s).0
    → IsBilled c env user req s (chat_completions env user req s)
unfolding chat_completions admit
chat_completions-bills c env user req s h small =
    serve_admitted-bills c env user req (admit env user s) h small

-- Whether the client got the whole of an answer, or left a stream.
abbrev pub is_billed : Result Served → Bool
is_billed (err e) = false
is_billed (ok (streamed o)) = not (is_some o.raised)
is_billed (ok (answered r)) = true

-- 1 or 0
abbrev pub count : Bool → ℕ
count true = 1
count false = 0

busy_stream :
    (engine : Engine) (up : Upstream) (patience : Option ℕ) (slots : Slots)
    → locked slots ≡ true
    → length (stream_complete engine up patience slots).0.completions
      ≡ count (not (is_some (stream_complete engine up patience slots).0.raised))
unfolding stream_complete enter
busy_stream engine up patience slots busy = rw (stream_complete, enter, busy) refl

completions-once :
    (engine : Engine) (up : Upstream) (patience : Option ℕ) (slots : Slots)
    → length (stream_complete engine up patience slots).0.completions
      ≡ count (not (is_some (stream_complete engine up patience slots).0.raised))
completions-once engine up patience slots = elim (Bool-cases (locked slots)) [
  | inl busy ↦ busy_stream engine up patience slots busy
  | inr free ↦ elim (stream_complete-IsSettled engine up patience slots free).1 [
    | inl (quiet, once) ↦ rw (quiet, once) refl
    | inr (raised, never) ↦ rw (raised, never) refl
  ]
]

length-stream_bills :
    (c : Caller) (env : Surroundings) (user : CurrentUser) (req : ChatCompletionRequest)
    (completions : List (ℕ × ℕ))
    → length (stream_bills c env user req completions) ≡ length completions
length-stream_bills c env user req [] = refl
length-stream_bills c env user req (tokens ∷ rest) =
    ap suc (length-stream_bills c env user req rest)

abbrev pub IsOnce :
    Caller → Surroundings → CurrentUser → ChatCompletionRequest → Result Served → Type 0
IsOnce c env user req result = length (bills c env user req result) ≡ count (is_billed result)

log_answer-IsOnce :
    (c : Caller) (env : Surroundings) (user : CurrentUser) (req : ChatCompletionRequest)
    (result : Result ChatCompletionResponse) (w : World)
    → IsOnce c env user req (log_answer env user req result w).0
unfolding log_answer
log_answer-IsOnce c env user req (err e) w = refl
log_answer-IsOnce c env user req (ok r) w = refl

serve_by-IsOnce :
    (stream : Bool) (c : Caller) (env : Surroundings) (user : CurrentUser)
    (req : ChatCompletionRequest) (s : State)
    → IsOnce c env user req (serve_by stream env user req s).0
unfolding serve_stream serve_whole
serve_by-IsOnce true c env user req s =
    let o = (stream_complete env.engine env.upstream env.patience s.slots).0 in
    length-stream_bills c env user req o.completions
    ∙ completions-once env.engine env.upstream env.patience s.slots
serve_by-IsOnce false c env user req s =
    log_answer-IsOnce c env user req (complete req.model env.engine env.post s.slots).0.result
      s.world

serve_admitted-IsOnce :
    (c : Caller) (env : Surroundings) (user : CurrentUser) (req : ChatCompletionRequest)
    (admitted : Result (Unit {0}) × State)
    → IsOnce c env user req (serve_admitted env user req admitted).0
serve_admitted-IsOnce c env user req (err e, s) = refl
serve_admitted-IsOnce c env user req (ok done, s) = serve_by-IsOnce req.stream c env user req s

chat_completions-IsOnce :
    (c : Caller) (env : Surroundings) (user : CurrentUser) (req : ChatCompletionRequest) (s : State)
    → IsOnce c env user req (chat_completions env user req s).0
unfolding chat_completions
chat_completions-IsOnce c env user req s = serve_admitted-IsOnce c env user req (admit env user s)

-- Where the caller's rows are there and the texts and counters fit their columns, a request leaves
-- exactly one row in the usage log if the client got an answer, or a stream that raised no error;
-- and none if it was refused or failed.
pub chat_completions-once :
    (c : Caller) (env : Surroundings) (user : CurrentUser) (req : ChatCompletionRequest) (s : State)
    → IsBillable c env user req s.world.committed
    → AreSmall (chat_completions env user req s).0
    → length (chat_completions env user req s).1.world.committed.usage_logs
      ≡ length s.world.committed.usage_logs + count (is_billed (chat_completions env user req s).0)
chat_completions-once c env user req s h small =
    let result = (chat_completions env user req s).0 in
    ap (λ db. length db.usage_logs) (chat_completions-bills c env user req s h small).0
    ∙ length-append s.world.committed.usage_logs (bills c env user req result)
    ∙ ap (λ n. length s.world.committed.usage_logs + n) (chat_completions-IsOnce c env user req s)
