-- ===== src/RateLimit.antt =====
-- backend/app/services/rate_limit_service.py: the token bucket that the Lua script keeps in Redis,
-- and `check_rate_limit` around it.
--
-- The script counts tokens as a double and refills `rpm / 60` of them each second. The arithmetic of
-- doubles, which is that of Python and of Redis, is an argument: `Doubles` has the operations that
-- the code uses, on doubles given by the number that their 64 bits spell. Times are in milliseconds on
-- one clock, which the API process and Redis share: the script is given `int(time.time())`, whole
-- seconds, and the key that it writes is dropped once 120 seconds have passed.
pub mod Whole
pub mod Bound
pub mod Retry
pub mod Isolation
use ai_inference_platform.Prelude.{
  ℕ, ◌+◌, ◌-◌, ◌*◌, ◌/◌, min, Bool, true, false, Option, none, some, ltb, leb, ◌==◌, if◌then◌else◌,
}

abbrev pub Double : Type 0
Double = ℕ

-- `tonumber` of a whole number, `+`, `-`, `*`, `/`, `>=` and `math.ceil`; and what `tonumber` reads of
-- a double that HMSET has written as a text.
pub record Doubles : Type 0 where
  pub of_int : ℕ → Double
  pub plus : Double → Double → Double
  pub minus : Double → Double → Double
  pub times : Double → Double → Double
  pub quotient : Double → Double → Double
  pub at_least : Double → Double → Bool
  pub ceil : Double → ℕ
  pub written : Double → Double

pub record Bucket : Type 0 where
  pub tokens : Double
  pub last_refill : ℕ
  pub expires_at : ℕ

-- What the script finds under a key: a key is dropped once its time has passed.
unfoldable pub live : ℕ → Option Bucket → Option Bucket
live ms none = none
live ms (some b) = if ltb b.expires_at ms then none else some b

-- The reply `{allowed, retry_after}` and the hash that is written back.
pub record Reply : Type 0 where
  pub allowed : Bool
  pub retry_after : ℕ
  pub bucket : Bucket

module _ (d : Doubles) where
  -- `math.min`
  unfoldable pub lesser : Double → Double → Double
  lesser a b = if d.at_least b a then a else b

  -- The tokens, with the refill, that the script goes on with. The seconds are whole numbers, and so
  -- is `math.max(0, now - last_refill)`.
  unfoldable pub refilled : (max_tokens refill_rate : Double) → (now : ℕ) → Option Bucket → Double
  unfolding lesser
  refilled max_tokens refill_rate now none =
      lesser max_tokens (d.plus max_tokens (d.times (d.of_int 0) refill_rate))
  refilled max_tokens refill_rate now (some b) =
      lesser max_tokens (d.plus b.tokens (d.times (d.of_int (now - b.last_refill)) refill_rate))

  unfoldable pub spend : (refill_rate : Double) → (now ms : ℕ) → (tokens : Double) → Reply
  spend refill_rate now ms tokens =
      if d.at_least tokens (d.of_int 1)
      then record {
        allowed = true;
        retry_after = 0;
        bucket = record {
          tokens = d.written (d.minus tokens (d.of_int 1));
          last_refill = now;
          expires_at = ms + 120000;
        };
      }
      else record {
        allowed = false;
        retry_after = d.ceil (d.quotient (d.minus (d.of_int 1) tokens) refill_rate);
        bucket = record { tokens = d.written tokens; last_refill = now; expires_at = ms + 120000 };
      }

  -- `TOKEN_BUCKET_LUA`, with the arguments that it gets: the burst, `rpm / 60.0` and the second.
  unfoldable pub token_bucket : (rpm burst ms : ℕ) → Option Bucket → Reply
  unfolding live refilled spend
  token_bucket rpm burst ms b =
      let now = ms / 1000 in
      let rate = d.quotient (d.of_int rpm) (d.of_int 60) in
      spend rate now ms (refilled (d.of_int burst) rate now (live ms b))

-- How the call of Redis ends: with the reply, with an exception before the script has run, or with
-- one after it has (the reply is lost).
pub data Redis : Type 0 where
  up down reply_lost : Redis

-- The keys `rl:{org_id}`.
abbrev pub Buckets : Type 0
Buckets = ℕ → Option Bucket

abbrev pub write : ℕ → Bucket → Buckets → Buckets
write org b store key = if key == org then some b else store key

-- `except Exception`
unfoldable pub on_failure : Bool → Bool × ℕ
on_failure true = (true, 0)
on_failure false = (false, 60)

unfoldable pub check_rate_limit :
    Doubles
    → (fail_open : Bool) → Redis
    → (org_id rpm burst ms : ℕ) → Buckets
    → (Bool × ℕ) × Buckets
unfolding token_bucket on_failure
check_rate_limit d fail_open up org_id rpm burst ms store =
    let r = token_bucket d rpm burst ms (store org_id) in
    ((r.allowed, r.retry_after), write org_id r.bucket store)
check_rate_limit d fail_open down org_id rpm burst ms store = (on_failure fail_open, store)
check_rate_limit d fail_open reply_lost org_id rpm burst ms store =
    let r = token_bucket d rpm burst ms (store org_id) in
    (on_failure fail_open, write org_id r.bucket store)
