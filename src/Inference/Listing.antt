-- ===== src/Inference/Listing.antt =====
-- backend/app/services/inference_service.py and backend/app/routers/inference.py: where the engine
-- is, whether it is up, and the models that it has. A GET of the engine is I/O, and how it ends is an
-- argument, by path.
use ai_inference_platform.Prelude.{
  ℕ, String, Bool, false, Option, none, some, List, [], ◌∷◌, Text, map, ◌==◌, if◌then◌else◌,
}
use ai_inference_platform.Inference.{Engine, ollama, openai_compatible}

-- What an object of the listing has under the key that is read for the name.
pub data Name : Type 0 where
  absent null : Name
  named : Text → Name

-- An exception, or a response with a status and the list that is read from its JSON: the `data` of an
-- OpenAI-compatible engine, the `models` of an Ollama one, empty where the key is missing. There is
-- none where the body is no JSON, or JSON on which a `get` raises.
pub data Get : Type 0 where
  unanswered : Get
  answered : (status : ℕ) → Option (List Name) → Get

pub record EngineSettings : Type 0 where
  pub engine : Engine
  pub inference_engine_url : Option Text
  pub ollama_base_url : Text

abbrev pub or_ollama : Option Text → Text → Text
or_ollama none base = base
or_ollama (some []) base = base
or_ollama (some (c ∷ t)) base = c ∷ t

-- `base_url` of `_get_client`
unfoldable pub base_url : EngineSettings → Text
base_url s = elim s.engine [
  | openai_compatible ↦ or_ollama s.inference_engine_url s.ollama_base_url
  | ollama ↦ s.ollama_base_url
]

abbrev pub listing_path : Engine → String
listing_path openai_compatible = "/v1/models"
listing_path ollama = "/api/tags"

abbrev pub is_200 : Get → Bool
is_200 unanswered = false
is_200 (answered status names) = status == 200

unfoldable pub check_ollama_health : Engine → (get : String → Get) → Bool
check_ollama_health engine get = is_200 (get (listing_path engine))

-- `{"name": m.get("id")}`: a name that is absent becomes null. An Ollama engine's objects are passed on
-- as they are.
abbrev pub as_name : Name → Name
as_name absent = null
as_name null = null
as_name (named t) = named t

abbrev pub names_of : Engine → List Name → List Name
names_of openai_compatible names = map as_name names
names_of ollama names = names

abbrev pub read_listing : Engine → Get → List Name
read_listing engine unanswered = []
read_listing engine (answered status none) = []
read_listing engine (answered status (some names)) =
    if status == 200 then names_of engine names else []

unfoldable pub list_ollama_models : Engine → (get : String → Get) → List Name
list_ollama_models engine get = read_listing engine (get (listing_path engine))

-- `m.get("name")`
abbrev pub get_name : Name → Option Text
get_name absent = none
get_name null = none
get_name (named t) = some t

-- The endpoint `/models`.
unfoldable pub list_models : Engine → (get : String → Get) → List (Option Text)
unfolding list_ollama_models
list_models engine get = map get_name (list_ollama_models engine get)
