-- ===== src/Inference/Complete/Answers.antt =====
-- What the proxy makes of an engine's answer.
use ai_inference_platform.Prelude.{
  ℕ, ◌+◌, All, String, ◌≡◌, ◌⊎◌, inl, inr, refl, true, false, Option, none, some, List, [], ◌∷◌,
  Text, arith, ◌==◌, Bool-cases, Option-cases,
}
use ai_inference_platform.Errors.{
  Error, ok, err, app_error, inference_unavailable, inference_timeout,
}
use ai_inference_platform.Admission.{Slots, enter, leave, locked}
use ai_inference_platform.Inference.{
  Engine, ollama, timeout_error, connect_error, other_error, metric,
}
use ai_inference_platform.Inference.Complete.{
  Choice, Body, Post, failed_post, response, ChatCompletionResponse, Completion, success_metric,
  unavailable, choices_of, join_contents, are_messages, is_message, read_body, read_response,
  complete,
}

-- However a completion ends, the slots are as before.
pub complete-slots :
    (requested : Text) (engine : Engine) (post : Post) (slots : Slots)
    → (complete requested engine post slots).1 ≡ slots
unfolding complete enter leave locked
complete-slots requested engine post slots = ground arith

-- A message of the answer has a content that is not empty.
abbrev pub HasContent : Choice → Type 0
HasContent choice = (c : ℕ) × (t : Text) × (choice.content ≡ some (c ∷ t))

is_message-content :
    (role : Text) (content : Option Text)
    → is_message role content ≡ true
    → (c : ℕ) × (t : Text) × (content ≡ some (c ∷ t))
unfolding is_message
is_message-content role none fine = ground arith
is_message-content role (some []) fine = ground arith
is_message-content role (some (c ∷ t)) fine = (c, t, refl)

are_messages-HasContent :
    (choices : List Choice) → are_messages choices ≡ true → All HasContent choices
unfolding are_messages
are_messages-HasContent [] fine = tt
are_messages-HasContent (choice ∷ choices) fine = (
  is_message-content choice.role choice.content (ground arith),
  are_messages-HasContent choices (ground arith),
)

-- What a completion comes to: an answer whose messages have contents and whose tokens add up, and
-- which is counted once as a success; or status 503 or 504.
abbrev pub IsAnswer : Completion → ChatCompletionResponse → Type 0
IsAnswer done r =
    All HasContent r.choices
    × (r.usage.total_tokens ≡ r.usage.prompt_tokens + r.usage.completion_tokens)
    × (done.metrics ≡ success_metric (r.usage.prompt_tokens, r.usage.completion_tokens) ∷ [])

abbrev pub IsOutage : Error → Type 0
IsOutage e =
    (m : String) × ((e ≡ app_error inference_unavailable m) ⊎ (e ≡ app_error inference_timeout m))

abbrev pub IsConcluded : Completion → Type 0
IsConcluded done =
    ((r : ChatCompletionResponse) × ((done.result ≡ ok r) × IsAnswer done r))
    ⊎ ((e : Error) × ((done.result ≡ err e) × IsOutage e))

read_body-IsConcluded :
    (requested : Text) (engine : Engine) (body : Body)
    → IsConcluded (read_body requested engine body)
unfolding read_body
read_body-IsConcluded requested engine body =
    elim (Option-cases (join_contents (choices_of engine body))) [
      | inl null ↦ rw (read_body, null) (inr (_, (refl, (_, inl refl))))
      | inr (contents, e) ↦ elim (Bool-cases (are_messages (choices_of engine body))) [
        | inl fine ↦
            rw (read_body, e, fine)
              (inl (_, (refl, (are_messages-HasContent (choices_of engine body) fine, refl, refl))))
        | inr unfit ↦ rw (read_body, e, unfit) (inr (_, (refl, (_, inl refl))))
      ]
    ]

read_response-IsConcluded :
    (requested : Text) (engine : Engine) (post : Post)
    → IsConcluded (read_response requested engine post)
unfolding read_response
read_response-IsConcluded requested engine (failed_post timeout_error) =
    inr (_, (refl, (_, inr refl)))
read_response-IsConcluded requested engine (failed_post connect_error) =
    inr (_, (refl, (_, inl refl)))
read_response-IsConcluded requested engine (failed_post other_error) =
    inr (_, (refl, (_, inl refl)))
read_response-IsConcluded requested engine (response status none) =
    elim (Bool-cases (status == 200)) [
      | inl fine ↦ rw fine (inr (_, (refl, (_, inl refl))))
      | inr other ↦ rw other (inr (_, (refl, (_, inl refl))))
    ]
read_response-IsConcluded requested engine (response status (some body)) =
    elim (Bool-cases (status == 200)) [
      | inl fine ↦ rw fine (read_body-IsConcluded requested engine body)
      | inr other ↦ rw other (inr (_, (refl, (_, inl refl))))
    ]

-- A completion either answers, with messages that all have a content and a total of the tokens that
-- adds up, and counts one success; or it raises the error for an engine that is unavailable or slow.
pub complete-IsConcluded :
    (requested : Text) (engine : Engine) (post : Post) (slots : Slots)
    → IsConcluded (complete requested engine post slots).0
unfolding complete enter
complete-IsConcluded requested engine post slots = elim (Bool-cases (locked slots)) [
  | inl busy ↦ rw (complete, enter, busy) (inr (_, (refl, (_, inl refl))))
  | inr free ↦ rw (complete, enter, free) (read_response-IsConcluded requested engine post)
]

join_contents-empty :
    (body : Body) → body.content ≡ some [] → join_contents (choices_of ollama body) ≡ some []
unfolding join_contents
join_contents-empty body empty = ground arith

are_messages-empty :
    (body : Body) → body.content ≡ some [] → are_messages (choices_of ollama body) ≡ false
unfolding are_messages is_message
are_messages-empty body empty = ground arith

-- An engine that answers with an empty text is reported as unavailable, and the request is counted
-- both as a success and as an error.
pub empty_answer_unavailable :
    (requested : Text) (body : Body) (slots : Slots)
    → locked slots ≡ false
    → body.content ≡ some []
    → ((complete requested ollama (response 200 (some body)) slots).0.result ≡ err unavailable)
      × ((complete requested ollama (response 200 (some body)) slots).0.metrics
          ≡ success_metric (body.prompt_eval_count, body.eval_count) ∷ metric "error" ∷ [])
unfolding complete enter read_response read_body
empty_answer_unavailable requested body slots free empty =
    rw
      (
        complete,
        enter,
        free,
        read_response,
        read_body,
        join_contents-empty body empty,
        are_messages-empty body empty,
      )
      (refl, refl)
