-- ===== src/Startup/Drain.antt =====
-- backend/app/main.py: the loop after the `yield` of `lifespan`, which waits for the inferences.
use ai_inference_platform.Prelude.{
  ℕ, zero, suc, ◌+◌, ◌-◌, ◌≤◌, ◌<◌, ◌≡◌, refl, Option, none, some, arith, ◌==◌, if◌then◌else◌, ◌≢◌,
  ◌∙◌, inl, inr, Bool-cases, false,
}
use ai_inference_platform.Admission.{leave}
use ai_inference_platform.Admission.Bound.{Server, IsConsistent}

-- Requests that leave during one `asyncio.sleep`: as many as asked for, or all. The server has stopped
-- taking requests, so that none comes in.
unfoldable pub leave_some : ℕ → Server → Server
leave_some zero s = s
leave_some (suc n) s =
    let after = leave_some n (record { slots = leave s.slots; inside = s.inside - 1 }) in
    if s.inside == 0 then s else after

-- The loop, on fuel: how often it sleeps before `get_active_inferences()` is 0. `leaving` says how
-- many requests leave during each sleep.
unfoldable pub drain : (fuel : ℕ) → (leaving : ℕ → ℕ) → (slept : ℕ) → Server → Option ℕ
drain zero leaving slept s = none
drain (suc fuel) leaving slept s =
    let later = drain fuel leaving (slept + 1) (leave_some (leaving slept) s) in
    if s.slots.active == 0 then some slept else later

one_leaves :
    (max : ℕ) (s : Server)
    → IsConsistent max s
    → s.inside ≢ 0
    → IsConsistent max (record { slots = leave s.slots; inside = s.inside - 1 })
unfolding leave
one_leaves max s h some_inside = record {
  waiters = ground arith;
  gauge = ground arith;
  active = ground arith;
  permits = ground arith;
}

leave_some-IsConsistent :
    (n max : ℕ) (s : Server)
    → IsConsistent max s
    → IsConsistent max (leave_some n s) × ((leave_some n s).inside ≡ s.inside - n)
unfolding leave_some
leave_some-IsConsistent zero max s h = (h, omega arith)
leave_some-IsConsistent (suc n) max s h = elim (Bool-cases (s.inside == 0)) [
  | inl nobody ↦ rw nobody (h, ground arith)
  | inr some_inside ↦
      let (consistent, count) =
        leave_some-IsConsistent n max (record { slots = leave s.slots; inside = s.inside - 1 })
          (one_leaves max s h (ground arith)) in
      rw some_inside (consistent, count ∙ ground arith)
]

active-inside :
    (max : ℕ) (s : Server) → IsConsistent max s → (s.slots.active == 0) ≡ false → 0 < s.inside
active-inside max s h busy = ground arith

-- Where at least one request leaves during each sleep and none comes in, the service goes down: the
-- loop ends after at most as many sleeps as there are requests inside.
pub drain_ends :
    (fuel : ℕ) (leaving : ℕ → ℕ) (slept max : ℕ) (s : Server)
    → IsConsistent max s
    → ((k : ℕ) → 0 < leaving k)
    → s.inside < fuel
    → (k : ℕ) × (drain fuel leaving slept s ≡ some k) × (k ≤ slept + s.inside)
unfolding drain
drain_ends zero leaving slept max s h some_leave enough = absurd (omega arith)
drain_ends (suc fuel) leaving slept max s h some_leave enough =
    let s' = leave_some (leaving slept) s in
    elim (Bool-cases (s.slots.active == 0)) [
      | inl quiet ↦ rw quiet (slept, refl, omega arith)
      | inr busy ↦
          let (consistent, fewer) = leave_some-IsConsistent (leaving slept) max s h in
          let one = some_leave slept in
          let inside = active-inside max s h busy in
          let (k, ends, bound) =
            drain_ends fuel leaving (slept + 1) max s' consistent some_leave (omega arith) in
          rw busy (k, ends, omega arith)
    ]
