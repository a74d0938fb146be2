-- ===== src/Tests/Streams.antt =====
-- Examples of the streams.
use ai_inference_platform.Prelude.{◌≡◌, Bool, true, false, none, List, [], ◌∷◌, Text, text}
use ai_inference_platform.Admission.{Slots, init}
use ai_inference_platform.Inference.{
  ollama, Line, skipped, event, failed, timeout_error, answer, relay,
}
use ai_inference_platform.Inference.Streams.{said, said-relay}

abbrev says : Text → Bool → Line
says t done = event (record {
  content = t;
  done = done;
  prompt_eval_count = 7;
  eval_count = 2;
  finish_reason = none;
  usage = none;
})

abbrev lines : List Line
lines = says (text "Hel") false ∷ skipped ∷ says (text "lo") false ∷ says [] true ∷ []

abbrev two_slots : Slots
two_slots = init 2

said-relay_example :
    said (relay ollama (answer 200 lines (failed timeout_error)) none).chunks ≡ text "Hello"
said-relay_example = said-relay ollama lines (failed timeout_error)
