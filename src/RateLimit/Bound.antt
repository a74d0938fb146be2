-- ===== src/RateLimit/Bound.antt =====
-- How many requests the bucket lets through: at most the burst, and what the rate refills in the
-- time between the first request and the last.
use ai_inference_platform.Prelude.{
  ℕ, ◌+◌, ◌-◌, ◌*◌, ◌/◌, ◌≤◌, ◌<◌, ◌≡◌, refl, Bool, true, false, Option, none, some, List, [], ◌∷◌,
  arith,
}
use native.Mathlib.Nat.{mul-le-mul_right}
use ai_inference_platform.RateLimit.{Doubles, Bucket, token_bucket}
use ai_inference_platform.RateLimit.Whole.{
  IsExact, WholeBucket, whole_live, whole_refilled, whole_spend, whole_bucket, stored_at, IsWithin,
  bucket-IsWithin, token_bucket-whole,
}

-- One if the request is let through.
abbrev pub count : Bool → ℕ
count true = 1
count false = 0

-- The requests of one organization at the given times: how many are let through.
unfoldable pub run : Doubles → (rpm burst : ℕ) → List ℕ → Option Bucket → ℕ
run d rpm burst [] b = 0
run d rpm burst (ms ∷ times) b =
    let r = token_bucket d rpm burst ms b in count r.allowed + run d rpm burst times (some r.bucket)

unfoldable whole_run : (rate burst : ℕ) → List ℕ → Option WholeBucket → ℕ
whole_run rate burst [] b = 0
whole_run rate burst (ms ∷ times) b =
    let r = whole_bucket rate burst ms b in
    count r.allowed + whole_run rate burst times (some r.bucket)

-- The times do not go back from `ms` on.
abbrev pub IsForward : ℕ → List ℕ → Type 0
IsForward ms [] = Unit
IsForward ms (t ∷ times) = (ms ≤ t) × IsForward t times

-- The second of the last request.
abbrev pub last_second : ℕ → List ℕ → ℕ
last_second ms [] = ms / 1000
last_second ms (t ∷ times) = last_second t times

second-le_last : (ms : ℕ) (times : List ℕ) → IsForward ms times → ms / 1000 ≤ last_second ms times
second-le_last ms [] fwd = omega arith
second-le_last ms (t ∷ times) (fwd, rest) =
    let later = second-le_last t times rest in omega (arith, later, fwd)

-- A request spends what it is given, and no more than is there.
spend_pays :
    (rate now ms tokens : ℕ)
    → let r = whole_spend rate now ms tokens in
      (count r.allowed + r.bucket.tokens ≡ tokens)
      × (r.bucket.last_refill ≡ now)
      × (r.bucket.expires_at ≡ ms + 120000)
unfolding whole_spend
spend_pays rate now ms tokens = ground arith

-- What an earlier request left behind at time `ms`.
record IsWritten (ms : ℕ) (b : WholeBucket) : Type 0 where
  second : b.last_refill ≡ ms / 1000
  expiry : b.expires_at ≡ ms + 120000

spread : (x y r : ℕ) → x ≤ y → (y - x) * r + x * r ≡ y * r
spread x y r h = grind arith

spread_two_minutes : (x y r : ℕ) → x + 120 ≤ y → 120 * r + x * r ≤ y * r
spread_two_minutes x y r h = omega (arith, mul-le-mul_right r h)

-- With a burst of at most two minutes' worth, a key that has expired would have been full.
refilled-le :
    (rate burst ms t : ℕ) (b : WholeBucket)
    → burst ≤ 120 * rate
    → ms ≤ t
    → IsWritten ms b
    → whole_refilled burst rate (t / 1000) (whole_live t (some b)) + (ms / 1000) * rate
      ≤ b.tokens + (t / 1000) * rate
refilled-le rate burst ms t b small fwd w = ground (
  arith,
  spread (ms / 1000) (t / 1000) rate (omega arith),
  spread_two_minutes (ms / 1000) (t / 1000) rate,
)

-- From a bucket that a request at `ms` left behind.
run_written :
    (rate burst ms : ℕ) (times : List ℕ) (b : WholeBucket)
    → burst ≤ 120 * rate
    → IsWritten ms b
    → IsForward ms times
    → whole_run rate burst times (some b) + (ms / 1000) * rate
      ≤ b.tokens + last_second ms times * rate
unfolding whole_run whole_bucket
run_written rate burst ms [] b small w fwd = omega arith
run_written rate burst ms (t ∷ times) b small w fwd =
    let tokens = whole_refilled burst rate (t / 1000) (whole_live t (some b)) in
    let paid = spend_pays rate (t / 1000) t tokens in
    omega (
      arith,
      refilled-le rate burst ms t b small fwd.0 w,
      run_written rate burst t times (whole_spend rate (t / 1000) t tokens).bucket small
          (record { second = paid.1; expiry = paid.2 }) fwd.1,
    )

whole_run-le :
    (rate burst ms : ℕ) (times : List ℕ)
    → burst ≤ 120 * rate
    → IsForward ms times
    → whole_run rate burst (ms ∷ times) none + (ms / 1000) * rate
      ≤ burst + last_second ms times * rate
unfolding whole_run whole_bucket
whole_run-le rate burst ms times small fwd =
    let paid = spend_pays rate (ms / 1000) ms burst in
    omega (
      arith,
      run_written rate burst ms times (whole_spend rate (ms / 1000) ms burst).bucket small
          (record { second = paid.1; expiry = paid.2 }) fwd,
    )

module _ (d : Doubles) (exact : IsExact d) (rate burst : ℕ) (hr : 0 < rate)
    (small : rate < 67108864) where
  run-whole :
      (ms : ℕ) (times : List ℕ) (b : Option WholeBucket)
      → IsForward ms times
      → burst + last_second ms times * rate < 9007199254740992
      → IsWithin d burst b
      → run d (rate * 60) burst (ms ∷ times) (stored_at d b) ≡ whole_run rate burst (ms ∷ times) b
  unfolding run whole_run
  run-whole ms [] b fwd big within =
      rw (token_bucket-whole d exact rate burst ms b hr small big within) refl
  run-whole ms (t ∷ times) b (fwd, rest) big within =
      let soon = second-le_last t times rest in
      let fewer : (ms / 1000) * rate ≤ last_second t times * rate =
        mul-le-mul_right rate (omega (arith, soon, fwd)) in
      let r = whole_bucket rate burst ms b in
      rw
        (
          token_bucket-whole d exact rate burst ms b hr small (omega (arith, fewer, big)) within,
          run-whole t times (some r.bucket) rest big (bucket-IsWithin d exact rate burst ms b),
        )
        refl

  -- An organization with a rate of whole tokens a second, whose burst is at most two minutes' worth
  -- of it, and whose bucket is not yet there: over any requests in the order of time, those let
  -- through number at most the burst plus the rate times the seconds from the first to the last.
  pub run-le :
      (ms : ℕ) (times : List ℕ)
      → burst ≤ 120 * rate
      → IsForward ms times
      → burst + last_second ms times * rate < 9007199254740992
      → run d (rate * 60) burst (ms ∷ times) none + (ms / 1000) * rate
        ≤ burst + last_second ms times * rate
  run-le ms times few fwd big =
      let bound = whole_run-le rate burst ms times few fwd in
      let same : run d (rate * 60) burst (ms ∷ times) none
          ≡ whole_run rate burst (ms ∷ times) none =
        run-whole ms times none fwd big tt in
      rw same bound
