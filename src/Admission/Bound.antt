-- ===== src/Admission/Bound.antt =====
-- Requests enter and leave in any order: how many are inside, and who is turned away.
use ai_inference_platform.Prelude.{ℕ, ◌+◌, ◌-◌, ◌≤◌, ◌<◌, ◌≡◌, ◌≢◌, ◌↔◌, refl, arith}
use ai_inference_platform.Errors.{ok}
use ai_inference_platform.Admission.{Slots, init, enter, leave}

-- The slots with the number of requests that have entered and not left.
pub record Server : Type 0 where
  pub slots : Slots
  pub inside : ℕ

abbrev pub start : ℕ → Server
start max = record { slots = init max; inside = 0 }

-- A request arrives, and is inside if it is let in; one that is inside leaves, whether its
-- inference succeeded, failed or was cancelled.
pub data Step : Server → Server → Type 0 where
  arrive_in :
      {s t : Server}
      → (enter s.slots).0 ≡ ok tt
      → t ≡ record { slots = (enter s.slots).1; inside = s.inside + 1 }
      → Step s t
  arrive_out :
      {s t : Server}
      → (enter s.slots).0 ≢ ok tt
      → t ≡ record s { slots = (enter s.slots).1 }
      → Step s t
  depart :
      {s t : Server}
      → 0 < s.inside
      → t ≡ record { slots = leave s.slots; inside = s.inside - 1 }
      → Step s t

pub data Reach (s : Server) : Server → Type 0 where
  here : Reach s s
  next : {t u : Server} → Reach s t → Step t u → Reach s u

-- The permits that are left and those that are held make up the maximum; both counters agree with
-- the requests inside; nobody waits.
pub record IsConsistent (max : ℕ) (s : Server) : Type 0 where
  pub permits : s.slots.value + s.inside ≡ max
  pub active : s.slots.active ≡ s.inside
  pub gauge : s.slots.gauge ≡ s.inside
  pub waiters : s.slots.waiters ≡ 0

Step-IsConsistent : {max : ℕ} {s t : Server} → Step s t → IsConsistent max s → IsConsistent max t
unfolding enter leave
Step-IsConsistent (arrive_in entered e) h = ground arith
Step-IsConsistent (arrive_out refused e) h = ground arith
Step-IsConsistent (depart held e) h = ground arith

-- Whatever the order in which requests arrive and leave, the counters are right and no request
-- waits in the semaphore.
pub Reach-IsConsistent : {max : ℕ} {s : Server} → Reach (start max) s → IsConsistent max s
Reach-IsConsistent here = record {
  permits = omega arith;
  active = refl;
  gauge = refl;
  waiters = refl;
}
Reach-IsConsistent (next r step) = Step-IsConsistent step (Reach-IsConsistent r)

-- At every moment at most the maximum of requests are inside, and a request is turned away if and
-- only if exactly that many are.
pub admission :
    {max : ℕ} {s : Server}
    → Reach (start max) s
    → (s.slots.active ≤ max) × (((enter s.slots).0 ≢ ok tt) ↔ (s.inside ≡ max))
unfolding enter
admission {max} {s} r =
    let h = Reach-IsConsistent r in (ground arith, (λ full. ground arith, λ full. ground arith))
