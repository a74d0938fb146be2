-- ===== src/Admission.antt =====
-- backend/app/services/inference_service.py: the slots for concurrent inferences.
--
-- `_inference_slot` tests the semaphore and takes a permit with no `await` in between that could
-- suspend it: `acquire` returns at once where the semaphore is not locked. So entering is one step,
-- and so is leaving, and the event loop orders the steps of all requests.
pub mod Bound
use ai_inference_platform.Prelude.{
  ℕ, ◌+◌, ◌-◌, Bool, true, false, List, [], ◌∷◌, ◌==◌, if◌then◌else◌,
}
use ai_inference_platform.Errors.{Result, ok, err, app_error, inference_unavailable}

-- The semaphore's value, its waiters, `_active_inferences`, and the gauge of concurrent requests.
pub record Slots : Type 0 where
  pub value : ℕ
  pub waiters : ℕ
  pub active : ℕ
  pub gauge : ℕ

-- `asyncio.Semaphore(MAX_CONCURRENT_INFERENCE)`
abbrev pub init : ℕ → Slots
init max = record { value = max; waiters = 0; active = 0; gauge = 0 }

-- `sem.locked()`
unfoldable pub locked : Slots → Bool
locked s = if s.value == 0 then true else if s.waiters == 0 then false else true

-- The way into `_inference_slot`.
unfoldable pub enter : Slots → Result (Unit {0}) × Slots
unfolding locked
enter s =
    if locked s
    then (
      err (
          app_error inference_unavailable
            "Server too busy: maximum concurrent inferences reached."),
      s,
    )
    else (ok tt, record s { value = s.value - 1; active = s.active + 1; gauge = s.gauge + 1 })

-- Its `finally` clause.
unfoldable pub leave : Slots → Slots
leave s = record s { value = s.value + 1; active = s.active - 1; gauge = s.gauge - 1 }
