-- ===== src/Tests/Limits.antt =====
-- Examples of the limits: the token buckets, the slots for inference, and the table of
-- organizations.
use ai_inference_platform.Prelude.{
  ℕ, ◌+◌, ◌*◌, ◌-◌, ◌/◌, leb, ◌≤◌, ◌≡◌, ◌≢◌, ◌↔◌, refl, true, none, some, List, [], ◌∷◌, text,
  arith,
}
use ai_inference_platform.Errors.{ok}
use ai_inference_platform.Models.{Org}
use ai_inference_platform.RateLimit.{
  Doubles, Buckets, Reply, live, lesser, refilled, spend, token_bucket, check_rate_limit,
}
use ai_inference_platform.RateLimit.Whole.{WholeBucket, IsExact, ceil_div, stored}
use ai_inference_platform.RateLimit.Bound.{last_second}
use ai_inference_platform.RateLimit.Retry.{ceil_div-mul, retry_after_exact}
use ai_inference_platform.RateLimit.Isolation.{Request, Limits, serve, serve-le}
use ai_inference_platform.Admission.{enter, init}
use ai_inference_platform.Admission.Bound.{Server, start, arrive_in, Reach, here, next, admission}

-- Numbers on which the operations are exact, but that a quotient is rounded up to a whole number.
abbrev pub whole_doubles : Doubles
whole_doubles = record {
  of_int = λ n. n;
  plus = λ a b. a + b;
  minus = λ a b. a - b;
  times = λ a b. a * b;
  quotient = λ a b. ceil_div a b;
  at_least = λ a b. leb b a;
  ceil = λ a. a;
  written = λ a. a;
}

whole_doubles-IsExact : IsExact whole_doubles
whole_doubles-IsExact = record {
  plus-whole = λ a b h. refl;
  minus-whole = λ a b h k. refl;
  times-whole = λ a b h. refl;
  quotient-whole = λ a b h k. ceil_div-mul a b h;
  at_least-whole = λ a b h k. refl;
  written-whole = λ a h. refl;
  ceil-quotient = λ a b h k l. refl;
}

abbrev one_a_second : ℕ → Limits
one_a_second org = record { rpm = 60; burst = 1 }

abbrev no_buckets : Buckets
no_buckets org = none

abbrev asked : List Request
asked =
    record { org_id = 1; ms = 5000 }
    ∷ record { org_id = 2; ms = 5100 }
    ∷ record { org_id = 1; ms = 5200 }
    ∷ record { org_id = 1; ms = 7000 }
    ∷ []

-- Two of the three requests are let through.
two_of_three : serve whole_doubles true one_a_second 1 asked no_buckets ≡ 2
unfolding serve check_rate_limit token_bucket live lesser refilled spend
two_of_three = refl

serve-le_example :
    serve whole_doubles true one_a_second 1 asked no_buckets + (5000 / 1000) * 1
    ≤ 1 + last_second 5000 (5200 ∷ 7000 ∷ []) * 1
serve-le_example =
    serve-le whole_doubles true one_a_second 1 5000 1 (5200 ∷ 7000 ∷ []) asked no_buckets
      whole_doubles-IsExact refl refl refl (omega arith) (omega arith) (omega arith)
      (omega arith, (omega arith, tt)) (omega arith)

abbrev used_up : WholeBucket
used_up = record { tokens = 0; last_refill = 5; expires_at = 125000 }

abbrev refusal : Reply
refusal = token_bucket whole_doubles 60 1 5200 (some (stored whole_doubles used_up))

retry_after_exact_example :
    ((token_bucket whole_doubles 60 1 6000 (some refusal.bucket)).allowed ≡ true)
    ↔ (5200 / 1000 + refusal.retry_after ≤ 6000 / 1000)
retry_after_exact_example =
    retry_after_exact whole_doubles 1 1 5200 6000 (some used_up) whole_doubles-IsExact (omega arith)
      (omega arith) (omega arith) (omega arith) (omega arith) (omega arith)
      (unfold token_bucket live lesser refilled spend in refl)

-- One request has entered where two may.
abbrev one_inside : Server
one_inside = record { slots = (enter (init 2)).1; inside = 1 }

one_inside-Reach : Reach (start 2) one_inside
unfolding enter
one_inside-Reach = next here (arrive_in refl refl)

admission_example :
    (one_inside.slots.active ≤ 2) × (((enter one_inside.slots).0 ≢ ok tt) ↔ (one_inside.inside ≡ 2))
admission_example = admission one_inside-Reach

abbrev acme : Org
acme = record {
  id = 7;
  name = text "Acme Co";
  slug = text "acme-co";
  rate_limit_rpm = 60;
  rate_limit_burst = 10;
  is_active = true;
}
