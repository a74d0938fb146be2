-- ===== src/RateLimit/Isolation.antt =====
-- `check_rate_limit` over the requests of many organizations: each has a bucket of its own.
use ai_inference_platform.Prelude.{
  ℕ, ◌+◌, ◌≤◌, ◌<◌, ◌≡◌, ◌≢◌, refl, Bool, none, List, [], ◌∷◌, arith, ◌==◌, if◌then◌else◌, ◌/◌, ◌*◌,
}
use ai_inference_platform.RateLimit.{
  Doubles, Buckets, Redis, up, token_bucket, check_rate_limit, write,
}
use ai_inference_platform.RateLimit.Whole.{IsExact}
use ai_inference_platform.RateLimit.Bound.{count, run, IsForward, last_second, run-le}

-- A request on its way through the limiter: who asks, and when.
pub record Request : Type 0 where
  pub org_id : ℕ
  pub ms : ℕ

-- The limits of each organization, as `_get_org_limits` reads them.
pub record Limits : Type 0 where
  pub rpm : ℕ
  pub burst : ℕ

module _ (d : Doubles) (fail_open : Bool) (limits : ℕ → Limits) where
  -- The requests in turn, Redis answering: how many of one organization's are let through.
  unfoldable pub serve : ℕ → List Request → Buckets → ℕ
  serve org [] store = 0
  serve org (r ∷ rest) store =
      let l = limits r.org_id in
      let (answer, store') = check_rate_limit d fail_open up r.org_id l.rpm l.burst r.ms store in
      let later = serve org rest store' in if org == r.org_id then count answer.0 + later else later

-- The times of one organization's requests.
abbrev pub times_of : ℕ → List Request → List ℕ
times_of org [] = []
times_of org (r ∷ rest) =
    let later = times_of org rest in if org == r.org_id then r.ms ∷ later else later

module _ (d : Doubles) (fail_open : Bool) (limits : ℕ → Limits) where
  -- Whatever the other organizations send in between, an organization is let through as often as
  -- if it were alone with its bucket.
  pub serve-eq-run :
      (org : ℕ) (requests : List Request) (store : Buckets)
      → serve d fail_open limits org requests store
        ≡ run d (limits org).rpm (limits org).burst (times_of org requests) (store org)
  unfolding serve run check_rate_limit
  serve-eq-run org [] store = refl
  serve-eq-run org (r ∷ rest) store =
      let l = limits r.org_id in
      let b = (token_bucket d l.rpm l.burst r.ms (store r.org_id)).bucket in
      ground (arith, serve-eq-run org rest (write r.org_id b store))

-- The requests of an organization to the limiter while Redis answers, at times that do not go back,
-- out of any interleaving with the others', its bucket not yet there. Its limits stay the same: a rate
-- of whole tokens a second, where the arithmetic of doubles is exact, and a burst of at most two
-- minutes' worth of it. Then those let through number at most the burst plus the rate times the
-- seconds from its first to its last.
pub serve-le :
    (d : Doubles) (fail_open : Bool) (limits : ℕ → Limits) (org ms rate : ℕ) (times : List ℕ)
    (requests : List Request) (store : Buckets)
    → IsExact d
    → times_of org requests ≡ ms ∷ times
    → store org ≡ none
    → (limits org).rpm ≡ rate * 60
    → 0 < rate
    → rate < 67108864
    → (limits org).burst ≤ 120 * rate
    → IsForward ms times
    → (limits org).burst + last_second ms times * rate < 9007199254740992
    → serve d fail_open limits org requests store + (ms / 1000) * rate
      ≤ (limits org).burst + last_second ms times * rate
serve-le d fail_open limits org ms rate times requests store exact own fresh whole hr small few fwd
      big =
    rw (serve-eq-run, own, fresh, whole)
      (run-le d exact rate (limits org).burst hr small ms times few fwd big)

-- No request changes the bucket of another organization, whether Redis answers or not.
pub check_rate_limit_others :
    (d : Doubles) (fail_open : Bool) (redis : Redis) (org_id rpm burst ms : ℕ) (store : Buckets)
    (key : ℕ)
    → key ≢ org_id
    → (check_rate_limit d fail_open redis org_id rpm burst ms store).1 key ≡ store key
unfolding check_rate_limit
check_rate_limit_others d fail_open up org_id rpm burst ms store key h = ground arith
check_rate_limit_others d fail_open _ org_id rpm burst ms store key h = ground arith
