-- ===== src/RateLimit/Retry.antt =====
-- The `retry_after` of a refusal.
use ai_inference_platform.Prelude.{
  ℕ, ◌+◌, ◌-◌, ◌*◌, ◌/◌, ◌≤◌, ◌<◌, ◌≡◌, ◌↔◌, true, false, Option, some, arith, leb, Bool-cases, inl,
  inr,
}
use native.Mathlib.Nat.{div-lt_iff_lt-mul, mul-le-mul_right}
use ai_inference_platform.RateLimit.{Doubles, token_bucket}
use ai_inference_platform.RateLimit.Whole.{
  IsExact, WholeBucket, ceil_div, whole_live, whole_refilled, whole_spend, whole_bucket, stored_at,
  IsWithin, bucket-IsWithin, token_bucket-whole,
}

ceil_div_iff : (a b n : ℕ) → 0 < b → (ceil_div a b ≤ n) ↔ (a ≤ n * b)
ceil_div_iff a b n h =
    let le : ((a + b - 1) / b < n + 1) ↔ (a + b - 1 < (n + 1) * b) = div-lt_iff_lt-mul h in
    (λ p. omega (arith, le.0 (omega arith)), λ p. omega (arith, le.1 (omega arith)))

pub ceil_div-mul : (a b : ℕ) → 0 < b → ceil_div (a * b) b ≡ a
ceil_div-mul a b h =
    let up = (ceil_div_iff (a * b) b a h).1 (omega arith) in
    let down = (ceil_div_iff (a * b) b (ceil_div (a * b) b) h).0 (omega arith) in
    elim (Bool-cases (leb a (ceil_div (a * b) b))) [
      | inl le ↦ ground (arith, up)
      | inr gt ↦
          let more : (ceil_div (a * b) b + 1) * b ≤ a * b = mul-le-mul_right b (ground arith) in
          absurd (omega (arith, more, down, h))
    ]

-- A refusal at `ms` with these tokens: a request at `t` passes when the refill makes up for it.
enough_iff :
    (rate burst ms t tokens : ℕ)
    → 0 < rate
    → 0 < burst
    → ms ≤ t
    → tokens < 1
    → (leb 1 (
          whole_refilled burst rate (t / 1000) (
            whole_live t (
              some
                (record { tokens = tokens; last_refill = ms / 1000; expires_at = ms + 120000 }))))
        ≡ true)
      ↔ (ms / 1000 + ceil_div (1 - tokens) rate ≤ t / 1000)
enough_iff rate burst ms t tokens hr hb fwd low =
    let wait = ceil_div_iff (1 - tokens) rate (t / 1000 - ms / 1000) hr in
    let cap = (ceil_div_iff (1 - tokens) rate 60 hr).1 (omega arith) in
    (λ p. ground (arith, wait.1), λ p. ground (arith, wait.0 (omega arith)))

allowed-spend : (rate now ms tokens : ℕ) → (whole_spend rate now ms tokens).allowed ≡ leb 1 tokens
unfolding whole_spend
allowed-spend rate now ms tokens = ground arith

spend_refused :
    (rate now ms tokens : ℕ)
    → (whole_spend rate now ms tokens).allowed ≡ false
    → (tokens < 1)
      × ((whole_spend rate now ms tokens).retry_after ≡ ceil_div (1 - tokens) rate)
      × ((whole_spend rate now ms tokens).bucket
          ≡ record { tokens = tokens; last_refill = now; expires_at = ms + 120000 })
unfolding whole_spend
spend_refused rate now ms tokens refused = ground arith

whole_retry :
    (rate burst ms t : ℕ) (b : Option WholeBucket)
    → 0 < rate
    → 0 < burst
    → ms ≤ t
    → (whole_bucket rate burst ms b).allowed ≡ false
    → ((whole_bucket rate burst t (some (whole_bucket rate burst ms b).bucket)).allowed ≡ true)
      ↔ (ms / 1000 + (whole_bucket rate burst ms b).retry_after ≤ t / 1000)
whole_retry rate burst ms t b hr hb fwd refused =
    let tokens = whole_refilled burst rate (ms / 1000) (whole_live ms b) in
    unfold whole_bucket in
    let (low, wait, left) = spend_refused rate (ms / 1000) ms tokens refused in
    rw (wait, left, allowed-spend) (enough_iff rate burst ms t tokens hr hb fwd low)

-- A refusal's `retry_after` is exact at a rate of whole tokens a second, where the arithmetic of
-- doubles is exact: with a positive rate and burst, from no bucket or one with whole tokens, and with
-- no request in between, the organization's next request is let through if and only if it comes at
-- least that many seconds later.
pub retry_after_exact :
    (d : Doubles) (rate burst ms t : ℕ) (b : Option WholeBucket)
    → IsExact d
    → 0 < rate
    → rate < 67108864
    → 0 < burst
    → IsWithin d burst b
    → ms ≤ t
    → burst + (t / 1000) * rate < 9007199254740992
    → (token_bucket d (rate * 60) burst ms (stored_at d b)).allowed ≡ false
    → ((token_bucket d
          (rate * 60)
          burst
          t
          (some (token_bucket d (rate * 60) burst ms (stored_at d b)).bucket)).allowed
        ≡ true)
      ↔ (ms / 1000 + (token_bucket d (rate * 60) burst ms (stored_at d b)).retry_after ≤ t / 1000)
retry_after_exact d rate burst ms t b exact hr small hb within fwd big refused =
    let fewer : (ms / 1000) * rate ≤ (t / 1000) * rate =
      mul-le-mul_right rate (omega (arith, fwd)) in
    let first =
      token_bucket-whole d exact rate burst ms b hr small (omega (arith, fewer, big)) within in
    let left = some (whole_bucket rate burst ms b).bucket in
    let second =
      token_bucket-whole d exact rate burst t left hr small big
        (bucket-IsWithin d exact rate burst ms b) in
    let refused' : (whole_bucket rate burst ms b).allowed ≡ false = rw first at refused in
    rw (first, second) (whole_retry rate burst ms t b hr hb fwd refused')
