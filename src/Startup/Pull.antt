-- ===== src/Startup/Pull.antt =====
-- backend/app/main.py: `pull_default_models`, which waits for the engine and has it pull the models
-- that it lacks. The calls of the engine are I/O: how each ends is an argument.
use ai_inference_platform.Prelude.{
  ℕ, zero, suc, ◌+◌, ◌≤◌, ◌≡◌, refl, Bool, true, false, not, ◌||◌, Option, none, some, List, [],
  ◌∷◌, Text, text, starts_with, select, map, arith, Bool-cases, inl, inr, ◌==◌, if◌then◌else◌, ◌⊎◌,
  ◌<◌,
}
use ai_inference_platform.Errors.{Error, Result, ok, err, unhandled, attribute_error}
use ai_inference_platform.RefreshTokens.{any}
use ai_inference_platform.Inference.{Engine, ollama, openai_compatible}

-- `for i in range(12)` with its `else`: the number of the probe that found the engine, if one did.
unfoldable pub await_engine : (left : ℕ) → (healthy : ℕ → Bool) → (i : ℕ) → Option ℕ
await_engine zero healthy i = none
await_engine (suc left) healthy i =
    let later = await_engine left healthy (i + 1) in if healthy i then some i else later

-- `m_name in existing`
unfoldable pub contains : Text → Text → Bool
contains name [] = starts_with [] name
contains name (c ∷ t) = starts_with (c ∷ t) name || contains name t

unfoldable pub matches : (name existing : Text) → Bool
unfolding contains
matches name existing = starts_with existing name || contains name existing

-- The inner loop; a model of the engine that has no name makes `startswith` raise.
unfoldable pub is_present : (name : Text) → (existing_names : List (Option Text)) → Result Bool
unfolding matches
is_present name [] = ok false
is_present name (none ∷ names) = err (unhandled attribute_error)
is_present name (some existing ∷ names) =
    let rest = is_present name names in if matches name existing then ok true else rest

-- The models that the engine is asked to pull, and what ends the loop before its end.
pub record Pulled : Type 0 where
  pub models : List Text
  pub raised : Option Error

abbrev pub pull_next : Text → Result Bool → Pulled → Pulled
pull_next name (err e) rest = record { models = []; raised = some e }
pull_next name (ok true) rest = rest
pull_next name (ok false) rest = record rest { models = name ∷ rest.models }

-- The outer loop; a pull that fails is logged.
unfoldable pub pull_missing : (models : List Text) → (existing_names : List (Option Text)) → Pulled
unfolding is_present
pull_missing [] names = record { models = []; raised = none }
pull_missing (name ∷ models) names =
    pull_next name (is_present name names) (pull_missing models names)

abbrev pub models_to_pull : List Text
models_to_pull = text "gemma2:2b" ∷ text "llama3.2" ∷ []

abbrev pub nothing_pulled : Pulled
nothing_pulled = record { models = []; raised = none }

-- The names are those that `/api/tags` answers, and none of them where it fails.
unfoldable pub pull_default_models :
    (auto_pull : Bool)
    → Engine
    → (healthy : ℕ → Bool) → (tags : Option (List (Option Text))) → Pulled
unfolding await_engine pull_missing
pull_default_models false engine healthy tags = nothing_pulled
pull_default_models true openai_compatible healthy tags = nothing_pulled
pull_default_models true ollama healthy tags = elim (await_engine 12 healthy 0) [
  | none ↦ nothing_pulled
  | some i ↦ elim tags [
    | none ↦ pull_missing models_to_pull []
    | some names ↦ pull_missing models_to_pull names
  ]
]

from_first :
    (i n : ℕ) (healthy : ℕ → Bool)
    → healthy i ≡ false
    → ((k : ℕ) → i + 1 ≤ k → k < n → healthy k ≡ false)
    → (k : ℕ) → i ≤ k
    → k < n
    → healthy k ≡ false
from_first i n healthy down after k le lt = elim (Bool-cases (k == i)) [
  | inl here ↦ let same : k ≡ i = ground arith in rw same down
  | inr later ↦ after k (ground arith) lt
]

-- The engine is found by the first probe that it answers, if that is among the first.
await_engine-first :
    (left i : ℕ) (healthy : ℕ → Bool)
    → ((await_engine left healthy i ≡ none) × ((k : ℕ) → i ≤ k → k < i + left → healthy k ≡ false))
      ⊎ ((j : ℕ) × ((await_engine left healthy i ≡ some j)
            × (j < i + left)
            × (healthy j ≡ true)
            × ((k : ℕ) → i ≤ k → k < j → healthy k ≡ false)))
unfolding await_engine
await_engine-first zero i healthy = inl (refl, λ k le lt. absurd (omega (arith, le, lt)))
await_engine-first (suc left) i healthy = elim (Bool-cases (healthy i)) [
  | inl up ↦ inr (i, (rw up refl, omega arith, up, λ k le lt. absurd (omega (arith, le, lt))))
  | inr down ↦ elim (await_engine-first left (i + 1) healthy) [
    | inl (never, all) ↦ inl (
      rw down never,
      from_first i (i + suc left) healthy down (λ k le lt. all k le (omega (arith, lt))),
    )
    | inr (j, (found, below, up, before)) ↦
        inr (j, (rw down found, omega (arith, below), up, from_first i j healthy down before))
  ]
]

abbrev pub lacks : List Text → Text → Bool
lacks names name = not (any (matches name) names)

is_present-any :
    (name : Text) (names : List Text)
    → is_present name (map some names) ≡ ok (any (matches name) names)
unfolding is_present any
is_present-any name [] = refl
is_present-any name (e ∷ es) = ground (arith, is_present-any name es)

-- Where every model of the engine has a name, what is pulled is what it lacks, in order.
pull_missing-lacks :
    (models names : List Text)
    → pull_missing models (map some names)
      ≡ record { models = select (lacks names) models; raised = none }
unfolding pull_missing
pull_missing-lacks [] names = refl
pull_missing-lacks (name ∷ models) names = elim (Bool-cases (any (matches name) names)) [
  | inl there ↦ rw (is_present-any name names, there, pull_missing-lacks models names) refl
  | inr missing ↦ rw (is_present-any name names, missing, pull_missing-lacks models names) refl
]

-- The default models are pulled that the engine lacks, in order and once, if one of the first twelve
-- probes finds it and its models all have names; if none does, nothing is pulled.
pub pull_default_models-lacks :
    (healthy : ℕ → Bool) (names : List Text)
    → (((k : ℕ) → k < 12 → healthy k ≡ false)
        × (pull_default_models true ollama healthy (some (map some names)) ≡ nothing_pulled))
      ⊎ ((j : ℕ) × ((j < 12)
            × (healthy j ≡ true)
            × (pull_default_models true ollama healthy (some (map some names))
                ≡ record { models = select (lacks names) models_to_pull; raised = none })))
unfolding pull_default_models
pull_default_models-lacks healthy names = elim (await_engine-first 12 0 healthy) [
  | inl (never, all) ↦
      inl (λ k lt. all k (omega arith) (omega (arith, lt)), rw (pull_default_models, never) refl)
  | inr (j, (found, below, up, before)) ↦ inr (
    j,
    (
      omega (arith, below),
      up,
      rw (pull_default_models, found) (pull_missing-lacks models_to_pull names),
    ),
  )
]
