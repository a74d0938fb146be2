-- ===== src/Health.antt =====
-- backend/app/routers/health.py: the probes of the platform. Whether the database and Redis answer is
-- an argument, and so are the readings of the clock, in hundredths of a millisecond.
pub mod Probes
use ai_inference_platform.Prelude.{
  ℕ, ◌-◌, String, Bool, true, false, not, ◌&&◌, Option, none, some, List, [], ◌∷◌, Text, text,
  text_eq, lower, select, is_some, if◌then◌else◌,
}
use ai_inference_platform.RefreshTokens.{any}
use ai_inference_platform.Inference.{Engine}
use ai_inference_platform.Inference.Listing.{Get, check_ollama_health}

-- `/health/liveness` answers 200 with a status.
unfoldable pub liveness : ℕ × String
liveness = (200, "ok")

abbrev pub reachable : Bool → String
reachable true = "reachable"
reachable false = "unreachable"

pub record Readiness : Type 0 where
  pub status_code : ℕ
  pub success : Bool
  pub status : String
  pub version : Text
  pub ollama : String
  pub database : String
  pub redis : String

-- The checks one after the other, each of which may take `is_healthy` away.
unfoldable pub readiness :
    (version : Text)
    → Engine
    → (get : String → Get) → (database_answers redis_answers : Bool) → Readiness
unfolding check_ollama_health
readiness version engine get database_answers redis_answers =
    let ollama_ok = check_ollama_health engine get in
    let after_ollama = if not ollama_ok then false else true in
    let after_database = if database_answers then after_ollama else false in
    let is_healthy = if redis_answers then after_database else false in
    record {
      status_code = if is_healthy then 200 else 503;
      success = is_healthy;
      status = if is_healthy then "ok" else "degraded";
      version = version;
      ollama = reachable ollama_ok;
      database = reachable database_answers;
      redis = reachable redis_answers;
    }

abbrev pub shown_headers : List Text
shown_headers =
    text "host"
    ∷ text "origin"
    ∷ text "referer"
    ∷ text "x-forwarded-for"
    ∷ text "x-forwarded-proto"
    ∷ text "x-forwarded-host"
    ∷ text "user-agent"
    ∷ []

pub record ServiceState : Type 0 where
  pub status : String
  pub latency_ms : Option ℕ

-- The readings before and after a check, and whether it got through.
abbrev pub latency : Bool → ℕ × ℕ → Option ℕ
latency false readings = none
latency true (t0, t1) = some (t1 - t0)

pub record Diagnostics : Type 0 where
  pub status_code : ℕ
  pub request_headers : List (Text × Text)
  pub database : ServiceState
  pub redis : ServiceState
  pub ollama : ServiceState

-- The part of the answer that is no setting. A service is reachable if its latency could be measured;
-- the check of the engine does not raise.
unfoldable pub diagnostics :
    (headers : List (Text × Text))
    → Engine
    → (get : String → Get) → (database_answers redis_answers : Bool)
    → (database_clock redis_clock ollama_clock : ℕ × ℕ) → Diagnostics
unfolding check_ollama_health any lower text_eq
diagnostics headers engine get database_answers redis_answers database_clock redis_clock
      ollama_clock =
    let db_latency_ms = latency database_answers database_clock in
    let redis_latency_ms = latency redis_answers redis_clock in
    record {
      status_code = 200;
      request_headers = select (λ h. any (λ k. text_eq k (lower h.0)) shown_headers) headers;
      database = record { status = reachable (is_some db_latency_ms); latency_ms = db_latency_ms };
      redis = record {
        status = reachable (is_some redis_latency_ms);
        latency_ms = redis_latency_ms;
      };
      ollama = record {
        status = reachable (check_ollama_health engine get);
        latency_ms = latency true ollama_clock;
      };
    }
