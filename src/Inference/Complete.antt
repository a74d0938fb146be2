-- ===== src/Inference/Complete.antt =====
-- backend/app/services/inference_service.py: the proxy that answers in one piece, with the types of
-- backend/app/schemas/inference.py that it fills. Ids and times of creation are left out.
pub mod Answers
use ai_inference_platform.Prelude.{
  ℕ, ◌+◌, String, Bool, true, false, ◌&&◌, ◌||◌, Option, none, some, List, [], ◌∷◌, ◌++◌, Text,
  text, text_eq, ◌==◌, if◌then◌else◌,
}
use ai_inference_platform.Errors.{
  Error, Result, ok, err, app_error, inference_unavailable, inference_timeout, default_message,
}
use ai_inference_platform.Admission.{Slots, enter, leave}
use ai_inference_platform.Inference.{
  Engine, ollama, openai_compatible, Failure, timeout_error, connect_error, other_error, Metric,
  metric,
}

-- A choice of an answer; the content is missing where it is null.
pub record Choice : Type 0 where
  pub index : ℕ
  pub role : Text
  pub content : Option Text
  pub finish_reason : Option Text

-- The answer as the `get`s see it, with their defaults: the first four fields are what an Ollama
-- engine sends, the others what an OpenAI-compatible one does.
pub record Body : Type 0 where
  pub content : Option Text
  pub done_reason : Option Text
  pub prompt_eval_count : ℕ
  pub eval_count : ℕ
  pub model : Text
  pub choices : List Choice
  pub usage : ℕ × ℕ

-- How the POST ends: it fails, or there is a response with a status and a body. The body is missing
-- where it is no JSON, or JSON on which a `get` raises.
pub data Post : Type 0 where
  failed_post : Failure → Post
  response : (status : ℕ) → Option Body → Post

pub record UsageStats : Type 0 where
  pub prompt_tokens : ℕ
  pub completion_tokens : ℕ
  pub total_tokens : ℕ

pub record ChatCompletionResponse : Type 0 where
  pub model : Text
  pub choices : List Choice
  pub usage : UsageStats

abbrev pub choices_of : Engine → Body → List Choice
choices_of openai_compatible body = body.choices
choices_of ollama body =
    record {
      index = 0;
      role = text "assistant";
      content = body.content;
      finish_reason = body.done_reason;
    }
    ∷ []

abbrev pub tokens_of : Engine → Body → ℕ × ℕ
tokens_of openai_compatible body = body.usage
tokens_of ollama body = (body.prompt_eval_count, body.eval_count)

abbrev pub model_of : (requested : Text) → Engine → Body → Text
model_of requested openai_compatible body = body.model
model_of requested ollama body = requested

-- The contents, joined and encoded for the histogram of sizes, which raises on a null.
unfoldable pub join_contents : List Choice → Option Text
join_contents [] = some []
join_contents (choice ∷ choices) = elim choice.content [
  | none ↦ none
  | some t ↦ elim (join_contents choices) [ none ↦ none | some rest ↦ some (t ++ rest) ]
]

-- `^(system|user|assistant)$`
abbrev pub is_role : Text → Bool
is_role r = text_eq r (text "system") || text_eq r (text "user") || text_eq r (text "assistant")

-- A `ChatMessage` of the schema has one of three roles and a content that is not empty.
unfoldable pub is_message : Text → Option Text → Bool
is_message role none = false
is_message role (some []) = false
is_message role (some (c ∷ t)) = is_role role

unfoldable pub are_messages : List Choice → Bool
unfolding is_message
are_messages [] = true
are_messages (choice ∷ choices) = is_message choice.role choice.content && are_messages choices

-- The calls of `_record_metrics`, and what is returned or raised.
pub record Completion : Type 0 where
  pub metrics : List Metric
  pub result : Result ChatCompletionResponse

abbrev pub success_metric : ℕ × ℕ → Metric
success_metric (prompt, completion) = record {
  status = "success";
  prompt_tokens = prompt;
  completion_tokens = completion;
}

abbrev pub unavailable : Error
unavailable = app_error inference_unavailable "error"

-- `except Exception`, with the metrics that were recorded before.
abbrev pub unexpected : List Metric → Completion
unexpected [] = record { metrics = metric "error" ∷ []; result = err unavailable }
unexpected (m ∷ ms) = record { metrics = m ∷ metric "error" ∷ []; result = err unavailable }

abbrev pub stats : ℕ × ℕ → UsageStats
stats (prompt, completion) = record {
  prompt_tokens = prompt;
  completion_tokens = completion;
  total_tokens = prompt + completion;
}

abbrev pub recorded : Engine → Body → List Metric
recorded engine body = success_metric (tokens_of engine body) ∷ []

unfoldable pub returned : (requested : Text) → Engine → Body → Completion
returned requested engine body = record {
  metrics = recorded engine body;
  result = ok (record {
    model = model_of requested engine body;
    choices = choices_of engine body;
    usage = stats (tokens_of engine body);
  });
}

-- What follows `body = response.json()`.
unfoldable pub read_body : (requested : Text) → Engine → Body → Completion
unfolding join_contents are_messages returned
read_body requested engine body = elim (join_contents (choices_of engine body)) [
  | none ↦ unexpected (recorded engine body)
  | some contents ↦
      if are_messages (choices_of engine body)
      then returned requested engine body
      else unexpected (recorded engine body)
]

-- What follows the slot.
unfoldable pub read_response : (requested : Text) → Engine → Post → Completion
unfolding read_body
read_response requested engine (failed_post timeout_error) = record {
  metrics = metric "timeout" ∷ [];
  result = err (app_error inference_timeout (default_message inference_timeout));
}
read_response requested engine (failed_post connect_error) = record {
  metrics = metric "error" ∷ [];
  result = err (app_error inference_unavailable "Cannot connect");
}
read_response requested engine (failed_post other_error) = unexpected []
read_response requested engine (response status none) =
    if status == 200 then unexpected [] else record {
      metrics = metric "error" ∷ [];
      result = err (app_error inference_unavailable "Inference engine returned another status");
    }
read_response requested engine (response status (some body)) =
    let got = read_body requested engine body in
    if status == 200 then got else record {
      metrics = metric "error" ∷ [];
      result = err (app_error inference_unavailable "Inference engine returned another status");
    }

-- The slot is held during the POST only.
unfoldable pub complete : (requested : Text) → Engine → Post → Slots → Completion × Slots
unfolding read_response
complete requested engine post slots =
    let (entered, held) = enter slots in
    elim entered [
      | err e ↦ (record { metrics = []; result = err e }, held)
      | ok done ↦ (read_response requested engine post, leave held)
    ]
