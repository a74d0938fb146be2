-- ===== src/RateLimit/Whole.antt =====
-- The token bucket where tokens are whole: at a rate of whole tokens a second, where doubles are exact.
use ai_inference_platform.Prelude.{
  ℕ, ◌+◌, ◌-◌, ◌*◌, ◌/◌, ◌≤◌, ◌<◌, ◌≡◌, refl, min, Bool, true, false, Option, none, some, arith,
  ltb, leb, if◌then◌else◌, Bool-cases, inl, inr,
}
use native.Mathlib.Nat.{mul-le-mul_right}
use ai_inference_platform.RateLimit.{
  Doubles, Bucket, Reply, live, lesser, refilled, spend, token_bucket,
}

-- `a / b`, rounded up
abbrev pub ceil_div : ℕ → ℕ → ℕ
ceil_div a b = (a + b - 1) / b

-- What is documented of doubles: whole numbers below 2^53 are exact, and so is each operation whose
-- result is one of them; a text with seventeen digits reads as the double that it was written for;
-- and a quotient of small numbers is rounded too little for its ceiling to change.
pub record IsExact (d : Doubles) : Type 0 where
  pub plus-whole :
      (a b : ℕ) → a + b < 9007199254740992 → d.plus (d.of_int a) (d.of_int b) ≡ d.of_int (a + b)
  pub minus-whole :
      (a b : ℕ)
      → b ≤ a
      → a < 9007199254740992
      → d.minus (d.of_int a) (d.of_int b) ≡ d.of_int (a - b)
  pub times-whole :
      (a b : ℕ) → a * b < 9007199254740992 → d.times (d.of_int a) (d.of_int b) ≡ d.of_int (a * b)
  pub quotient-whole :
      (a b : ℕ)
      → 0 < b
      → a * b < 9007199254740992
      → d.quotient (d.of_int (a * b)) (d.of_int b) ≡ d.of_int a
  pub at_least-whole :
      (a b : ℕ)
      → a < 9007199254740992
      → b < 9007199254740992
      → d.at_least (d.of_int a) (d.of_int b) ≡ leb b a
  pub written-whole : (a : ℕ) → a < 9007199254740992 → d.written (d.of_int a) ≡ d.of_int a
  pub ceil-quotient :
      (a b : ℕ)
      → 0 < b
      → a < 67108864
      → b < 67108864
      → d.ceil (d.quotient (d.of_int a) (d.of_int b)) ≡ ceil_div a b

-- A bucket with a whole number of tokens, and the reply that leaves one.
pub record WholeBucket : Type 0 where
  pub tokens : ℕ
  pub last_refill : ℕ
  pub expires_at : ℕ

pub record WholeReply : Type 0 where
  pub allowed : Bool
  pub retry_after : ℕ
  pub bucket : WholeBucket

abbrev pub whole_live : ℕ → Option WholeBucket → Option WholeBucket
whole_live ms none = none
whole_live ms (some b) = if ltb b.expires_at ms then none else some b

abbrev pub whole_refilled : (burst rate now : ℕ) → Option WholeBucket → ℕ
whole_refilled burst rate now none = burst
whole_refilled burst rate now (some b) = min burst (b.tokens + (now - b.last_refill) * rate)

unfoldable pub whole_spend : (rate now ms tokens : ℕ) → WholeReply
whole_spend rate now ms tokens =
    if leb 1 tokens
    then record {
      allowed = true;
      retry_after = 0;
      bucket = record { tokens = tokens - 1; last_refill = now; expires_at = ms + 120000 };
    }
    else record {
      allowed = false;
      retry_after = ceil_div (1 - tokens) rate;
      bucket = record { tokens = tokens; last_refill = now; expires_at = ms + 120000 };
    }

unfoldable pub whole_bucket : (rate burst ms : ℕ) → Option WholeBucket → WholeReply
whole_bucket rate burst ms b =
    whole_spend rate (ms / 1000) ms (whole_refilled burst rate (ms / 1000) (whole_live ms b))

module _ (d : Doubles) where
  abbrev pub stored : WholeBucket → Bucket
  stored b = record {
    tokens = d.of_int b.tokens;
    last_refill = b.last_refill;
    expires_at = b.expires_at;
  }

  abbrev pub stored_at : Option WholeBucket → Option Bucket
  stored_at none = none
  stored_at (some b) = some (stored b)

  abbrev pub replied : WholeReply → Reply
  replied r = record { allowed = r.allowed; retry_after = r.retry_after; bucket = stored r.bucket }

  live-stored :
      (ms : ℕ) (b : Option WholeBucket) → live ms (stored_at b) ≡ stored_at (whole_live ms b)
  unfolding live
  live-stored ms none = refl
  live-stored ms (some b) = elim (Bool-cases (ltb b.expires_at ms)) [
    | inl gone ↦ rw gone refl
    | inr there ↦ rw there refl
  ]

  -- A bucket has at most the burst.
  abbrev pub IsWithin : ℕ → Option WholeBucket → Type 0
  IsWithin burst none = Unit
  IsWithin burst (some b) = b.tokens ≤ burst

  module _ (exact : IsExact d) where
    lesser-whole :
        (a b : ℕ)
        → a < 9007199254740992
        → b < 9007199254740992
        → lesser d (d.of_int a) (d.of_int b) ≡ d.of_int (min a b)
    unfolding lesser
    lesser-whole a b ha hb = rw (exact.at_least-whole b a hb ha) (elim (Bool-cases (leb a b)) [
      | inl le ↦ let least : min a b ≡ a = ground arith in rw (le, least) refl
      | inr gt ↦ let least : min a b ≡ b = ground arith in rw (gt, least) refl
    ])

    spend-whole :
        (rate now ms tokens : ℕ)
        → 0 < rate
        → rate < 67108864
        → tokens < 9007199254740992
        → spend d (d.of_int rate) now ms (d.of_int tokens)
          ≡ replied (whole_spend rate now ms tokens)
    unfolding spend whole_spend
    spend-whole rate now ms tokens hr small ht =
        rw (exact.at_least-whole tokens 1 ht (omega arith)) (elim (Bool-cases (leb 1 tokens)) [
          | inl enough ↦
              rw
                (
                  enough,
                  exact.minus-whole tokens 1 (ground arith) ht,
                  exact.written-whole (tokens - 1) (omega arith),
                )
                refl
          | inr short ↦
              rw
                (
                  short,
                  exact.minus-whole 1 tokens (ground arith) (omega arith),
                  exact.written-whole tokens ht,
                  exact.ceil-quotient (1 - tokens) rate hr (omega arith) small,
                )
                refl
        ])

    refilled-whole :
        (burst rate now : ℕ) (b : Option WholeBucket)
        → IsWithin burst b
        → burst + now * rate < 9007199254740992
        → refilled d (d.of_int burst) (d.of_int rate) now (stored_at b)
          ≡ d.of_int (whole_refilled burst rate now b)
    unfolding refilled
    refilled-whole burst rate now none within small =
        let full : min burst (burst + 0) ≡ burst = ground arith in
        let nothing : 0 * rate ≡ 0 = omega arith in
        rw
          (
            exact.times-whole 0 rate (omega arith),
            nothing,
            exact.plus-whole burst 0 (omega (arith, small)),
            lesser-whole burst (burst + 0) (omega (arith, small)) (omega (arith, small)),
            full,
          )
          refl
    refilled-whole burst rate now (some b) within small =
        let more : (now - b.last_refill) * rate ≤ now * rate =
          mul-le-mul_right rate (omega arith) in
        let refill = (now - b.last_refill) * rate in
        rw
          (
            exact.times-whole (now - b.last_refill) rate (omega (arith, small, more)),
            exact.plus-whole b.tokens refill (omega (arith, small, more, within)),
          )
          (lesser-whole burst (b.tokens + refill) (omega (arith, small))
            (omega (arith, small, more, within)))

    live-IsWithin :
        (burst ms : ℕ) (b : Option WholeBucket)
        → IsWithin burst b
        → IsWithin burst (whole_live ms b)
    live-IsWithin burst ms none within = tt
    live-IsWithin burst ms (some b) within = elim (Bool-cases (ltb b.expires_at ms)) [
      | inl gone ↦ rw gone tt
      | inr there ↦ rw there within
    ]

    refilled-le_burst :
        (burst rate now : ℕ) (b : Option WholeBucket) → whole_refilled burst rate now b ≤ burst
    refilled-le_burst burst rate now none = omega arith
    refilled-le_burst burst rate now (some b) = ground arith

    pub bucket-IsWithin :
        (rate burst ms : ℕ) (b : Option WholeBucket)
        → IsWithin burst (some (whole_bucket rate burst ms b).bucket)
    unfolding whole_bucket whole_spend
    bucket-IsWithin rate burst ms b =
        ground (arith, refilled-le_burst burst rate (ms / 1000) (whole_live ms b))

    -- At a rate of whole tokens a second, the script keeps whole tokens.
    pub token_bucket-whole :
        (rate burst ms : ℕ) (b : Option WholeBucket)
        → 0 < rate
        → rate < 67108864
        → burst + (ms / 1000) * rate < 9007199254740992
        → IsWithin burst b
        → token_bucket d (rate * 60) burst ms (stored_at b) ≡ replied (whole_bucket rate burst ms b)
    unfolding token_bucket whole_bucket
    token_bucket-whole rate burst ms b hr small big within =
        let here = live-IsWithin burst ms b within in
        let most = refilled-le_burst burst rate (ms / 1000) (whole_live ms b) in
        rw
          (
            exact.quotient-whole rate 60 (omega arith) (omega (arith, small)),
            live-stored ms b,
            refilled-whole burst rate (ms / 1000) (whole_live ms b) here big,
          )
          (spend-whole rate (ms / 1000) ms (whole_refilled burst rate (ms / 1000) (whole_live ms b))
            hr small (omega (arith, most, big)))
