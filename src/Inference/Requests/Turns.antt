-- ===== src/Inference/Requests/Turns.antt =====
-- The turns of a chat: the answer of a completion goes into the next request.
use ai_inference_platform.Prelude.{
  ◌≡◌, ◌≢◌, refl, true, none, some, List, [], ◌∷◌, ◌++◌, Text, text, text_eq, arith, ◌==◌,
  Bool-cases, Option-cases, inl, inr,
}
use ai_inference_platform.Errors.{ok}
use ai_inference_platform.Admission.{Slots, locked, enter}
use ai_inference_platform.Inference.{Engine, timeout_error, connect_error, other_error}
use ai_inference_platform.Inference.Complete.{
  is_message, are_messages, Choice, Body, Post, failed_post, response, ChatCompletionResponse,
  choices_of, join_contents, returned, read_body, read_response, complete,
}
use ai_inference_platform.Inference.Requests.{
  Message, CompletionBody, Floats, is_given, all_messages, last_message_must_be_user, is_accepted,
}

read_body-messages :
    (requested : Text) (engine : Engine) (body : Body) (r : ChatCompletionResponse)
    → (read_body requested engine body).result ≡ ok r
    → are_messages r.choices ≡ true
unfolding read_body returned
read_body-messages requested engine body r got =
    elim (Option-cases (join_contents (choices_of engine body))) [
      | inl null ↦ absurd (ground (arith, got, null))
      | inr (contents, e) ↦ elim (Bool-cases (are_messages (choices_of engine body))) [
        | inl fine ↦ ground (arith, got, e, fine)
        | inr unfit ↦ absurd (ground (arith, got, e, unfit))
      ]
    ]

read_response-messages :
    (requested : Text) (engine : Engine) (post : Post) (r : ChatCompletionResponse)
    → (read_response requested engine post).result ≡ ok r
    → are_messages r.choices ≡ true
unfolding read_response
read_response-messages requested engine (failed_post timeout_error) r got =
    absurd (ground (arith, got))
read_response-messages requested engine (failed_post connect_error) r got =
    absurd (ground (arith, got))
read_response-messages requested engine (failed_post other_error) r got =
    absurd (ground (arith, got))
read_response-messages requested engine (response status none) r got = absurd (ground (arith, got))
read_response-messages requested engine (response status (some body)) r got =
    elim (Bool-cases (status == 200)) [
      | inl fine ↦ read_body-messages requested engine body r (rw fine at got)
      | inr other ↦ absurd (ground (arith, got, other))
    ]

complete-messages :
    (requested : Text) (engine : Engine) (post : Post) (slots : Slots) (r : ChatCompletionResponse)
    → (complete requested engine post slots).0.result ≡ ok r
    → are_messages r.choices ≡ true
unfolding complete enter
complete-messages requested engine post slots r got = elim (Bool-cases (locked slots)) [
  | inl busy ↦ absurd (ground (arith, got, busy))
  | inr free ↦ read_response-messages requested engine post r (rw (complete, enter, free) at got)
]

-- The request of the next turn: the answer, and what the user says to it.
abbrev pub turn : Choice → (content said : Text) → List Message
turn choice content said =
    record { role = choice.role; content = content }
    ∷ record { role = text "user"; content = said }
    ∷ []

all_messages-turn :
    (ms : List Message) (choice : Choice) (content said : Text)
    → all_messages ms ≡ true
    → is_message choice.role (some content) ≡ true
    → said ≢ []
    → all_messages (ms ++ turn choice content said) ≡ true
unfolding all_messages
all_messages-turn [] choice content [] h fits more = absurd (more refl)
all_messages-turn [] choice content (c ∷ t) h fits more =
    rw fits (unfold is_message text_eq in refl)
all_messages-turn (m ∷ ms) choice content said h fits more =
    ground (arith, h, all_messages-turn ms choice content said)

last-turn :
    (ms : List Message) (choice : Choice) (content said : Text)
    → last_message_must_be_user (ms ++ turn choice content said) ≡ true
unfolding last_message_must_be_user text_eq
last-turn [] choice content said = refl
last-turn (m ∷ []) choice content said = refl
last-turn (m ∷ n ∷ ms) choice content said = last-turn (n ∷ ms) choice content said

is_given-turn :
    (ms : List Message) (choice : Choice) (content said : Text)
    → is_given (ms ++ turn choice content said) ≡ true
is_given-turn [] choice content said = refl
is_given-turn (m ∷ ms) choice content said = refl

-- If a request is accepted and a completion gives an answer, the request with the first choice of the
-- answer and something more that the user says, added to its messages, is accepted as well.
pub next_turn-accepted :
    (f : Floats) (b : CompletionBody f.Float) (requested : Text) (engine : Engine) (post : Post)
    (slots : Slots) (r : ChatCompletionResponse) (choice : Choice) (choices : List Choice)
    (content said : Text)
    → is_accepted f b ≡ true
    → (complete requested engine post slots).0.result ≡ ok r
    → r.choices ≡ choice ∷ choices
    → choice.content ≡ some content
    → said ≢ []
    → is_accepted f (record b { messages = b.messages ++ turn choice content said }) ≡ true
unfolding is_accepted
next_turn-accepted f b requested engine post slots r choice choices content said accepted got first
      spoken more =
    let fit = rw first at (complete-messages requested engine post slots r got) in
    let fits : is_message choice.role (some content) ≡ true =
      unfold are_messages in ground (arith, fit, spoken) in
    ground (
      arith,
      accepted,
      is_given-turn b.messages choice content said,
      last-turn b.messages choice content said,
      all_messages-turn b.messages choice content said,
      fits,
      more,
    )
