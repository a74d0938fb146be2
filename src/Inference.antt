-- ===== src/Inference.antt =====
-- backend/app/services/inference_service.py: the streaming proxy to the inference engine. A line of
-- the engine's answer is given as what `json.loads` and the `get`s make of it; of a chunk that is
-- sent on, the id, the model and the time of creation, which are passed through, are left out. The
-- messages of errors stand without what the code interpolates into them.
pub mod Streams
pub mod Complete
pub mod Listing
pub mod Requests
use ai_inference_platform.Prelude.{
  ℕ, zero, suc, ◌+◌, String, Bool, true, false, not, ◌&&◌, Option, none, some, List, [], ◌∷◌, Text,
  ◌==◌, if◌then◌else◌,
}
use ai_inference_platform.Errors.{
  Error, Result, ok, err, app_error, inference_unavailable, inference_timeout, default_message,
}
use ai_inference_platform.Admission.{Slots, enter, leave}

pub data Engine : Type 0 where
  ollama openai_compatible : Engine

-- An object of the stream. `content` is empty where it is missing or null; the counters are 0 where
-- they are missing.
pub record Event : Type 0 where
  pub content : Text
  pub done : Bool
  pub prompt_eval_count : ℕ
  pub eval_count : ℕ
  pub finish_reason : Option String
  pub usage : Option (ℕ × ℕ)

-- A line with the marker of the end; one that the loop passes over, being empty, no JSON or, of an
-- OpenAI-compatible engine, no data; JSON on which a `get` raises; or an object.
pub data Line : Type 0 where
  skipped done_marker misshapen : Line
  event : Event → Line

pub data Failure : Type 0 where
  timeout_error connect_error other_error : Failure

-- What is sent on in a chunk.
pub record Chunk : Type 0 where
  pub role : Option String
  pub content : Option Text
  pub finish_reason : Option String

-- The variables of the loop.
pub record Stream : Type 0 where
  pub first_token : Bool
  pub prompt_tokens : ℕ
  pub completion_tokens : ℕ

abbrev pub fresh : Stream
fresh = record { first_token = true; prompt_tokens = 0; completion_tokens = 0 }

-- `content or None`
abbrev pub or_none : Text → Option Text
or_none [] = none
or_none (c ∷ t) = some (c ∷ t)

-- `if content:`
unfoldable pub count_content : Text → Stream → Stream
count_content [] st = st
count_content (c ∷ t) st = record st {
  first_token = false;
  completion_tokens = st.completion_tokens + 1;
}

-- The counters that the engine reports replace those of the loop.
unfoldable pub report : Engine → Event → Stream → Stream
report ollama v st =
    if v.done
    then record st { prompt_tokens = v.prompt_eval_count; completion_tokens = v.eval_count }
    else st
report openai_compatible v st = elim v.usage [
  | none ↦ st
  | some (prompt, completion) ↦ record st { prompt_tokens = prompt; completion_tokens = completion }
]

unfoldable pub after_event : Engine → Event → Stream → Stream
unfolding count_content report
after_event engine v st = report engine v (count_content v.content st)

abbrev pub reason : Engine → Event → Option String
reason ollama v = if v.done then some "stop" else none
reason openai_compatible v = v.finish_reason

abbrev pub role_of : Bool → Option String
role_of true = some "assistant"
role_of false = none

-- The chunk is made after `first_token` has been cleared.
unfoldable pub chunk_of : Engine → Event → Stream → Chunk
chunk_of engine v st = record {
  role = role_of st.first_token;
  content = or_none v.content;
  finish_reason = reason engine v;
}

pub data Exit : Type 0 where
  finished gone : Exit
  failed : Failure → Exit

pub record Consumed : Type 0 where
  pub chunks : List Chunk
  pub exit : Exit
  pub stream : Stream
  pub patience : Option ℕ

abbrev pub stop : Exit → Stream → Option ℕ → Consumed
stop exit st patience = record { chunks = []; exit = exit; stream = st; patience = patience }

abbrev pub prepend : Chunk → Consumed → Consumed
prepend chunk c = record c { chunks = chunk ∷ c.chunks }

abbrev pub is_last : Engine → Event → Bool
is_last ollama v = v.done
is_last openai_compatible v = false

abbrev pub at_marker : Engine → Stream → Option ℕ → Consumed → Consumed
at_marker ollama st patience rest = rest
at_marker openai_compatible st patience rest = stop finished st patience

-- The client takes the chunk, and either is gone with it or goes on.
abbrev pub yield_chunk : Bool → Chunk → Stream → Option ℕ → (Option ℕ → Consumed) → Consumed
yield_chunk last chunk st (some zero) rest = prepend chunk (stop gone st (some zero))
yield_chunk last chunk st (some (suc n)) rest =
    let c = rest (some n) in prepend chunk (if last then stop finished st (some n) else c)
yield_chunk last chunk st none rest =
    let c = rest none in prepend chunk (if last then stop finished st none else c)

-- The loop over the lines. When there are no more, the engine has closed the connection or failed, or
-- the request has been cancelled. A client that leaves
-- does so when it has been sent a number of chunks.
unfoldable pub consume :
    Engine → (ending : Exit) → List Line → (patience : Option ℕ) → Stream → Consumed
consume engine ending [] patience st = stop ending st patience
consume engine ending (skipped ∷ lines) patience st = consume engine ending lines patience st
consume engine ending (misshapen ∷ lines) patience st = stop (failed other_error) st patience
consume engine ending (done_marker ∷ lines) patience st =
    at_marker engine st patience (consume engine ending lines patience st)
consume engine ending (event v ∷ lines) patience st =
    let st' = after_event engine v st in
    yield_chunk (is_last engine v) (chunk_of engine v st') st' patience
      (λ left. consume engine ending lines left st')

-- A call of `_record_metrics`.
pub record Metric : Type 0 where
  pub status : String
  pub prompt_tokens : ℕ
  pub completion_tokens : ℕ

-- What the stream has sent, with or without the sentinel at the end; the metrics; the calls of
-- `on_complete`; and the error that is raised.
pub record Outcome : Type 0 where
  pub chunks : List Chunk
  pub sentinel : Bool
  pub metrics : List Metric
  pub completions : List (ℕ × ℕ)
  pub raised : Option Error

abbrev pub metric : String → Metric
metric status = record { status = status; prompt_tokens = 0; completion_tokens = 0 }

abbrev pub raising : Option String → List Chunk → Error → Outcome
raising none chunks e = record {
  chunks = chunks;
  sentinel = false;
  metrics = [];
  completions = [];
  raised = some e;
}
raising (some status) chunks e = record {
  chunks = chunks;
  sentinel = false;
  metrics = metric status ∷ [];
  completions = [];
  raised = some e;
}

-- `except (GeneratorExit, asyncio.CancelledError)`
abbrev pub cancelled : List Chunk → Bool → Outcome
cancelled chunks sentinel = record {
  chunks = chunks;
  sentinel = sentinel;
  metrics = metric "cancelled" ∷ [];
  completions = (0, 0) ∷ [];
  raised = none;
}

-- The sentinel has been sent, and the client is still there.
abbrev pub completed : Consumed → Outcome
completed c = record {
  chunks = c.chunks;
  sentinel = true;
  metrics =
      record {
        status = "success";
        prompt_tokens = c.stream.prompt_tokens;
        completion_tokens = c.stream.completion_tokens;
      }
      ∷ [];
  completions = (c.stream.prompt_tokens, c.stream.completion_tokens) ∷ [];
  raised = none;
}

unfoldable pub fail : List Chunk → Failure → Outcome
fail chunks timeout_error =
    raising (some "timeout") chunks
      (app_error inference_timeout (default_message inference_timeout))
fail chunks connect_error =
    raising (some "error") chunks (app_error inference_unavailable "Cannot connect")
fail chunks other_error = raising (some "error") chunks (app_error inference_unavailable "error")

-- The sentinel is sent, with which the client may be gone.
abbrev pub at_sentinel : (patience : Option ℕ) → Consumed → Outcome
at_sentinel none c = completed c
at_sentinel (some zero) c = cancelled c.chunks true
at_sentinel (some (suc n)) c = completed c

-- What follows the loop.
unfoldable pub settle : Consumed → Outcome
settle c = elim c.exit [
  | gone ↦ cancelled c.chunks false
  | failed f ↦ fail c.chunks f
  | finished ↦ at_sentinel c.patience c
]

-- The engine as the client of it sees it: a failure to connect, or a status and lines.
pub data Upstream : Type 0 where
  unreachable : Failure → Upstream
  answer : (status : ℕ) → List Line → (ending : Exit) → Upstream

-- Inside the slot.
unfoldable pub relay : Engine → Upstream → (patience : Option ℕ) → Outcome
relay engine (unreachable f) patience = fail [] f
relay engine (answer status lines ending) patience =
    let c = consume engine ending lines patience fresh in
    if status == 200
    then settle c
    else raising (some "error") []
        (app_error inference_unavailable "Inference engine returned another status")

-- The slot is given back however the relay ends.
unfoldable pub stream_complete : Engine → Upstream → (patience : Option ℕ) → Slots → Outcome × Slots
stream_complete engine up patience slots =
    let (entered, held) = enter slots in
    elim entered [
      | err e ↦ (raising none [] e, held)
      | ok done ↦ (relay engine up patience, leave held)
    ]
