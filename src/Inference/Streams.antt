-- ===== src/Inference/Streams.antt =====
-- What a stream sends, counts and gives back.
use ai_inference_platform.Prelude.{
  ℕ, zero, suc, ◌≡◌, ◌⊎◌, inl, inr, refl, Bool, true, false, Option, none, some, is_some, List, [],
  ◌∷◌, ◌++◌, Text, arith, length, All, ◌==◌, if◌then◌else◌, Bool-cases,
}
use ai_inference_platform.Admission.{Slots, enter, leave, locked}
use ai_inference_platform.Inference.{
  Engine, ollama, openai_compatible, Event, Line, skipped, done_marker, misshapen, event, Failure,
  timeout_error, connect_error, other_error, Chunk, Stream, Consumed, Exit, finished, gone, failed,
  fresh, or_none, role_of, is_last, chunk_of, after_event, count_content, report, consume,
  yield_chunk, Outcome, fail, settle, Upstream, unreachable, answer, relay, stream_complete,
}

-- However a stream ends, refused, finished, failed or left by the client, the slots are as before.
pub stream_complete-slots :
    (engine : Engine) (up : Upstream) (patience : Option ℕ) (slots : Slots)
    → (stream_complete engine up patience slots).1 ≡ slots
unfolding stream_complete enter leave locked
stream_complete-slots engine up patience slots = ground arith

-- Either nothing was raised and `on_complete` has been called once, or an error was raised and it has
-- not been called.
abbrev pub IsSettled : Outcome → Type 0
IsSettled o =
    (length o.metrics ≡ 1)
    × (((o.raised ≡ none) × (length o.completions ≡ 1))
        ⊎ ((is_some o.raised ≡ true) × (o.completions ≡ [])))

fail-IsSettled : (chunks : List Chunk) (f : Failure) → IsSettled (fail chunks f)
unfolding fail
fail-IsSettled chunks timeout_error = (refl, inr (refl, refl))
fail-IsSettled chunks connect_error = (refl, inr (refl, refl))
fail-IsSettled chunks other_error = (refl, inr (refl, refl))

settle_at-IsSettled :
    (chunks : List Chunk) (exit : Exit) (st : Stream) (patience : Option ℕ)
    → IsSettled (settle (record { chunks = chunks; exit = exit; stream = st; patience = patience }))
unfolding settle
settle_at-IsSettled chunks gone st patience = (refl, inl (refl, refl))
settle_at-IsSettled chunks (failed f) st patience = fail-IsSettled chunks f
settle_at-IsSettled chunks finished st none = (refl, inl (refl, refl))
settle_at-IsSettled chunks finished st (some zero) = (refl, inl (refl, refl))
settle_at-IsSettled chunks finished st (some (suc n)) = (refl, inl (refl, refl))

settle-IsSettled : (c : Consumed) → IsSettled (settle c)
settle-IsSettled c = settle_at-IsSettled c.chunks c.exit c.stream c.patience

relay-IsSettled :
    (engine : Engine) (up : Upstream) (patience : Option ℕ) → IsSettled (relay engine up patience)
unfolding relay
relay-IsSettled engine (unreachable f) patience = fail-IsSettled [] f
relay-IsSettled engine (answer status lines ending) patience = elim (Bool-cases (status == 200)) [
  | inl fine ↦ rw fine (settle-IsSettled (consume engine ending lines patience fresh))
  | inr other ↦ rw other (refl, inr (refl, refl))
]

-- A stream that gets a slot records the metrics once, and either calls `on_complete` once and
-- raises nothing, or raises an error and does not call it.
pub stream_complete-IsSettled :
    (engine : Engine) (up : Upstream) (patience : Option ℕ) (slots : Slots)
    → locked slots ≡ false
    → IsSettled (stream_complete engine up patience slots).0
unfolding stream_complete enter
stream_complete-IsSettled engine up patience slots free =
    rw (stream_complete, enter, free) (relay-IsSettled engine up patience)

-- The text that the engine says: the contents of its objects up to the last one, or up to a line that
-- is no such object.
abbrev pub spoken : Engine → List Line → Text
spoken engine [] = []
spoken engine (skipped ∷ lines) = spoken engine lines
spoken engine (misshapen ∷ lines) = []
spoken ollama (done_marker ∷ lines) = spoken ollama lines
spoken openai_compatible (done_marker ∷ lines) = []
spoken engine (event v ∷ lines) =
    let rest = spoken engine lines in v.content ++ (if is_last engine v then [] else rest)

abbrev pub text_of : Option Text → Text
text_of none = []
text_of (some t) = t

-- The text of the chunks.
abbrev pub said : List Chunk → Text
said [] = []
said (chunk ∷ chunks) = text_of chunk.content ++ said chunks

text_of-or_none : (t : Text) → text_of (or_none t) ≡ t
text_of-or_none [] = refl
text_of-or_none (c ∷ t) = refl

said-consume :
    (engine : Engine) (ending : Exit) (lines : List Line) (st : Stream)
    → said (consume engine ending lines none st).chunks ≡ spoken engine lines
unfolding consume chunk_of
said-consume engine ending [] st = refl
said-consume engine ending (skipped ∷ lines) st = said-consume engine ending lines st
said-consume engine ending (misshapen ∷ lines) st = refl
said-consume ollama ending (done_marker ∷ lines) st = said-consume ollama ending lines st
said-consume openai_compatible ending (done_marker ∷ lines) st = refl
said-consume engine ending (event v ∷ lines) st = elim (Bool-cases (is_last engine v)) [
  | inl last ↦ rw (last, text_of-or_none v.content) refl
  | inr more ↦
      rw
        (
          more,
          text_of-or_none v.content,
          said-consume engine ending lines (after_event engine v st),
        )
        refl
]

chunks-settle_at :
    (chunks : List Chunk) (exit : Exit) (st : Stream) (patience : Option ℕ)
    → (settle (record { chunks = chunks; exit = exit; stream = st; patience = patience })).chunks
      ≡ chunks
unfolding settle fail
chunks-settle_at chunks gone st patience = refl
chunks-settle_at chunks (failed timeout_error) st patience = refl
chunks-settle_at chunks (failed connect_error) st patience = refl
chunks-settle_at chunks (failed other_error) st patience = refl
chunks-settle_at chunks finished st none = refl
chunks-settle_at chunks finished st (some zero) = refl
chunks-settle_at chunks finished st (some (suc n)) = refl

chunks-settle : (c : Consumed) → (settle c).chunks ≡ c.chunks
chunks-settle c = chunks-settle_at c.chunks c.exit c.stream c.patience

-- What a client that stays is sent is what the engine says, piece by piece and in order, whether the
-- engine goes on to its end or fails.
pub said-relay :
    (engine : Engine) (lines : List Line) (ending : Exit)
    → said (relay engine (answer 200 lines ending) none).chunks ≡ spoken engine lines
unfolding relay
said-relay engine lines ending =
    rw (chunks-settle (consume engine ending lines none fresh))
      (said-consume engine ending lines fresh)

-- A chunk names the role only if it has no content.
abbrev pub IsBare : Chunk → Type 0
IsBare chunk = (chunk.role ≡ none) ⊎ (chunk.content ≡ none)

first_token-report :
    (engine : Engine) (v : Event) (st : Stream) → (report engine v st).first_token ≡ st.first_token
unfolding report
first_token-report ollama v st = ground arith
first_token-report openai_compatible v st = ground arith

bare_content :
    (t : Text) (st : Stream)
    → (role_of (count_content t st).first_token ≡ none) ⊎ (or_none t ≡ none)
unfolding count_content
bare_content [] st = inr refl
bare_content (c ∷ t) st = inl refl

IsBare-yield_chunk :
    (last : Bool) (chunk : Chunk) (st : Stream) (patience : Option ℕ) (rest : Option ℕ → Consumed)
    → IsBare chunk
    → ((left : Option ℕ) → All IsBare (rest left).chunks)
    → All IsBare (yield_chunk last chunk st patience rest).chunks
IsBare-yield_chunk last chunk st (some zero) rest h hs = (h, tt)
IsBare-yield_chunk true chunk st (some (suc n)) rest h hs = (h, tt)
IsBare-yield_chunk false chunk st (some (suc n)) rest h hs = (h, hs (some n))
IsBare-yield_chunk true chunk st none rest h hs = (h, tt)
IsBare-yield_chunk false chunk st none rest h hs = (h, hs none)

IsBare-chunk_of :
    (engine : Engine) (v : Event) (st : Stream)
    → IsBare (chunk_of engine v (after_event engine v st))
unfolding chunk_of after_event
IsBare-chunk_of engine v st =
    rw (first_token-report engine v (count_content v.content st)) (bare_content v.content st)

IsBare-consume :
    (engine : Engine) (ending : Exit) (lines : List Line) (patience : Option ℕ) (st : Stream)
    → All IsBare (consume engine ending lines patience st).chunks
unfolding consume
IsBare-consume engine ending [] patience st = tt
IsBare-consume engine ending (skipped ∷ lines) patience st =
    IsBare-consume engine ending lines patience st
IsBare-consume engine ending (misshapen ∷ lines) patience st = tt
IsBare-consume ollama ending (done_marker ∷ lines) patience st =
    IsBare-consume ollama ending lines patience st
IsBare-consume openai_compatible ending (done_marker ∷ lines) patience st = tt
IsBare-consume engine ending (event v ∷ lines) patience st =
    IsBare-yield_chunk (is_last engine v) (chunk_of engine v (after_event engine v st))
      (after_event engine v st) patience
      (λ left. consume engine ending lines left (after_event engine v st))
      (IsBare-chunk_of engine v st)
      (λ left. IsBare-consume engine ending lines left (after_event engine v st))

IsBare-fail : (f : Failure) → All IsBare (fail [] f).chunks
unfolding fail
IsBare-fail timeout_error = tt
IsBare-fail connect_error = tt
IsBare-fail other_error = tt

IsBare-relay :
    (engine : Engine) (up : Upstream) (patience : Option ℕ)
    → All IsBare (relay engine up patience).chunks
unfolding relay
IsBare-relay engine (unreachable f) patience = IsBare-fail f
IsBare-relay engine (answer status lines ending) patience =
    let c = consume engine ending lines patience fresh in
    elim (Bool-cases (status == 200)) [
      | inl fine ↦ rw (fine, chunks-settle c) (IsBare-consume engine ending lines patience fresh)
      | inr other ↦ rw other tt
    ]

stream_complete-chunks :
    (engine : Engine) (up : Upstream) (patience : Option ℕ) (slots : Slots)
    → ((stream_complete engine up patience slots).0.chunks ≡ [])
      ⊎ ((stream_complete engine up patience slots).0.chunks ≡ (relay engine up patience).chunks)
unfolding stream_complete enter
stream_complete-chunks engine up patience slots = elim (Bool-cases (locked slots)) [
  | inl busy ↦ inl (rw (stream_complete, enter, busy) refl)
  | inr free ↦ inr (rw (stream_complete, enter, free) refl)
]

-- No chunk with content names the role, whatever the engine and the client do.
pub stream_complete-IsBare :
    (engine : Engine) (up : Upstream) (patience : Option ℕ) (slots : Slots)
    → All IsBare (stream_complete engine up patience slots).0.chunks
stream_complete-IsBare engine up patience slots =
    elim (stream_complete-chunks engine up patience slots) [
      | inl refused ↦ rw refused tt
      | inr relayed ↦ rw relayed (IsBare-relay engine up patience)
    ]
