-- ===== src/Health/Probes.antt =====
-- What the probes and the gauges tell of the dependencies.
use ai_inference_platform.Prelude.{
  ℕ, String, ◌≡◌, ◌↔◌, refl, ap, ◌∙◌, Bool, true, false, Option, none, some, List, [], ◌∷◌, Text,
  text, text_eq, map, length, All, arith,
}
use ai_inference_platform.Errors.{ok}
use ai_inference_platform.RefreshTokens.{any}
use ai_inference_platform.Startup.Pull.{contains, models_to_pull}
use ai_inference_platform.Inference.{Engine}
use ai_inference_platform.Inference.Listing.{
  Get, unanswered, answered, check_ollama_health, list_ollama_models, read_listing, is_200,
  listing_path,
}
use ai_inference_platform.Metrics.{
  Gauges, collect_models, set_statuses, is_loaded, loaded_name, bit,
}
use ai_inference_platform.Health.{readiness, diagnostics}

-- The platform is ready, with status 200, if and only if the engine, the database and Redis all
-- answer; the diagnostics call the same services reachable as the readiness probe.
pub readiness_iff :
    (version : Text) (headers : List (Text × Text)) (engine : Engine) (get : String → Get)
    (database_answers redis_answers : Bool) (t_db t_redis t_engine : ℕ × ℕ)
    → let r = readiness version engine get database_answers redis_answers in
      let d = diagnostics headers engine get database_answers redis_answers t_db t_redis t_engine in
      ((r.status_code ≡ 200) ↔ (
        (check_ollama_health engine get ≡ true)
        × (database_answers ≡ true)
        × (redis_answers ≡ true)))
      × (r.success ≡ true ↔ r.status_code ≡ 200)
      × (d.ollama.status ≡ r.ollama)
      × (d.database.status ≡ r.database)
      × (d.redis.status ≡ r.redis)
unfolding readiness diagnostics
readiness_iff version headers engine get true true t_db t_redis t_engine =
    (ground arith, ground arith, refl, refl, refl)
readiness_iff version headers engine get true false t_db t_redis t_engine =
    (ground arith, ground arith, refl, refl, refl)
readiness_iff version headers engine get false true t_db t_redis t_engine =
    (ground arith, ground arith, refl, refl, refl)
readiness_iff version headers engine get false false t_db t_redis t_engine =
    (ground arith, ground arith, refl, refl, refl)

abbrev pub is_null : Option Text → Bool
is_null none = true
is_null (some t) = false

abbrev pub is_in : Text → Option Text → Bool
is_in model none = false
is_in model (some name) = contains model name

-- A set is iterated over in some order, member by member.
abbrev pub IsSetOrder : (List (Option Text) → List (Option Text)) → Type 0
IsSetOrder set_order =
    (p : Option Text → Bool) (names : List (Option Text)) → any p (set_order names) ≡ any p names

is_loaded-any :
    (model : Text) (names : List (Option Text))
    → any is_null names ≡ false
    → is_loaded model names ≡ ok (any (is_in model) names)
unfolding is_loaded any
is_loaded-any model [] h = refl
is_loaded-any model (none ∷ names) h = absurd (ground (arith, h))
is_loaded-any model (some name ∷ names) h = ground (arith, h, is_loaded-any model names)

loaded_in :
    (set_order : List (Option Text) → List (Option Text)) (model : Text)
    (names : List (Option Text))
    → IsSetOrder set_order
    → any is_null names ≡ false
    → is_loaded model (set_order names) ≡ ok (any (is_in model) names)
loaded_in set_order model names sound named =
    is_loaded-any model (set_order names) (sound is_null names ∙ named)
    ∙ ap (λ (b : Bool). ok b) (sound (is_in model) names)

-- If no model of the engine has a null for a name, a pass of the metrics says that the engine is up
-- and how many models it lists, and sets the gauge of each default model to whether its name is part
-- of the name of one that the engine lists.
pub collect_models-loaded :
    (set_order : List (Option Text) → List (Option Text)) (engine : Engine) (get : String → Get)
    (g : Gauges)
    → IsSetOrder set_order
    → any is_null (map loaded_name (list_ollama_models engine get)) ≡ false
    → let g' = collect_models set_order engine get g in
      (g'.ollama_up ≡ 1)
      × (g'.active_models_count ≡ length (list_ollama_models engine get))
      × All
          (λ model.
            g'.ollama_model_status model
            ≡ some (bit (any (is_in model) (map loaded_name (list_ollama_models engine get)))))
          models_to_pull
unfolding collect_models set_statuses text_eq
collect_models-loaded set_order engine get g sound named =
    let names = map loaded_name (list_ollama_models engine get) in
    let small = loaded_in set_order (text "gemma2:2b") names sound named in
    let large = loaded_in set_order (text "llama3.2") names sound named in
    rw (small, large) (refl, refl, (refl, (refl, tt)))

listing-down : (engine : Engine) (get : Get) → is_200 get ≡ false → read_listing engine get ≡ []
listing-down engine unanswered down = refl
listing-down engine (answered status none) down = refl
listing-down engine (answered status (some names)) down = rw down refl

-- While the engine does not answer with status 200, the readiness probe answers 503, and yet a pass of
-- the metrics sets the gauge of the engine to 1, as if it were up, with no models and none of the
-- default models loaded.
pub engine_down_unseen :
    (set_order : List (Option Text) → List (Option Text)) (version : Text) (engine : Engine)
    (get : String → Get) (database_answers redis_answers : Bool) (g : Gauges)
    → IsSetOrder set_order
    → check_ollama_health engine get ≡ false
    → let g' = collect_models set_order engine get g in
      ((readiness version engine get database_answers redis_answers).status_code ≡ 503)
      × (g'.ollama_up ≡ 1)
      × (g'.active_models_count ≡ 0)
      × All (λ model. g'.ollama_model_status model ≡ some 0) models_to_pull
unfolding readiness any
engine_down_unseen set_order version engine get database_answers redis_answers g sound down =
    let empty : list_ollama_models engine get ≡ [] =
      unfold list_ollama_models in
      listing-down engine (get (listing_path engine)) (unfold check_ollama_health in down) in
    let told = collect_models-loaded set_order engine get g sound (rw empty refl) in
    (ground (arith, down), told.0, told.1 ∙ rw empty refl, rw empty at told.2)
