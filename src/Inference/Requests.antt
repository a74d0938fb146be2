-- ===== src/Inference/Requests.antt =====
-- backend/app/schemas/inference.py and backend/app/services/inference_service.py: what the schema takes
-- for the request of a completion, and what an Ollama engine is sent of it. The floats of a request are
-- a type with an order, an argument.
pub mod Turns
use ai_inference_platform.Prelude.{
  ℕ, ◌≡◌, ◌≢◌, refl, Bool, true, false, ◌&&◌, ◌||◌, Option, none, some, List, [], ◌∷◌, ◌++◌, Text,
  text, text_eq, leb, arith, if◌then◌else◌, ◌==◌, Bool-cases, Option-cases, inl, inr,
}
use ai_inference_platform.Inference.Complete.{is_message}

pub record Message : Type 0 where
  pub role : Text
  pub content : Text

pub record Floats : Type 1 where
  pub Float : Type 0
  pub le : Float → Float → Bool
  pub zero_point : Float
  pub one_point : Float
  pub two_points : Float

pub record CompletionBody (Float : Type 0) : Type 0 where
  pub model : Text
  pub messages : List Message
  pub stream : Bool
  pub temperature : Float
  pub max_tokens : ℕ
  pub top_p : Float

-- `min_length=1`
abbrev pub is_given {ℓ} : {A : Type ℓ} → List A → Bool
is_given [] = false
is_given (x ∷ xs) = true

unfoldable pub all_messages : List Message → Bool
unfolding is_message
all_messages [] = true
all_messages (m ∷ ms) = is_message m.role (some m.content) && all_messages ms

unfoldable pub last_message_must_be_user : List Message → Bool
unfolding text_eq
last_message_must_be_user [] = true
last_message_must_be_user (m ∷ []) = text_eq m.role (text "user") || text_eq m.role (text "system")
last_message_must_be_user (m ∷ n ∷ ms) = last_message_must_be_user (n ∷ ms)

-- The options of an Ollama engine.
pub record OllamaPayload (Float : Type 0) : Type 0 where
  pub model : Text
  pub messages : List Message
  pub stream : Bool
  pub temperature : Float
  pub num_predict : ℕ
  pub top_p : Float
  pub num_ctx : ℕ

module _ (f : Floats) where
  -- Whether the schema takes a body; another one is answered with status 422.
  unfoldable pub is_accepted : CompletionBody f.Float → Bool
  unfolding all_messages last_message_must_be_user
  is_accepted b =
      is_given b.model
      && is_given b.messages
      && all_messages b.messages
      && last_message_must_be_user b.messages
      && f.le f.zero_point b.temperature
      && f.le b.temperature f.two_points
      && leb 1 b.max_tokens
      && leb b.max_tokens 32768
      && f.le f.zero_point b.top_p
      && f.le b.top_p f.one_point

  unfoldable pub build_ollama_payload :
      (num_ctx : ℕ) → CompletionBody f.Float → OllamaPayload f.Float
  build_ollama_payload num_ctx req = record {
    model = req.model;
    messages = req.messages;
    stream = req.stream;
    temperature = req.temperature;
    num_predict = req.max_tokens;
    top_p = req.top_p;
    num_ctx = num_ctx;
  }
