-- ===== src/Otp/Attempts.antt =====
-- Verification requests: what counts as an attempt, how many there are, and who gets through. A
-- request is `verify_otp` in a session of its own, as the endpoints run it.
use ai_inference_platform.Prelude.{
  ℕ, ◌+◌, ◌≤◌, ◌<◌, min, ◌≡◌, ◌≢◌, ◌↔◌, ◌⊎◌, inl, inr, refl, Bool, true, false, Option, none, some,
  List, [], ◌∷◌, length, All, arith, Text, text_eq, text_eq_iff, update_where, ltb, ◌==◌, ap, ◌∙◌,
  Option-cases,
}
use native.Mathlib.Decide.{dec_lt}
use ai_inference_platform.Errors.{ok}
use ai_inference_platform.Models.{Otp, Purpose, Db}
use ai_inference_platform.Session.{World, Action, with_db}
use ai_inference_platform.Otp.{latest, is_for, clean_email, hash_otp_code, verify_otp}
use ai_inference_platform.Otp.Latest.{latest-update_self}

-- The row that a request for an address and a purpose finds: the newest one committed.
unfoldable pub current : Text → Purpose → World → Option Otp
current email purpose w = latest (is_for (clean_email email) purpose) w.committed.otps

abbrev pub with_attempts : Otp → ℕ → Otp
with_attempts o n = record o { attempts = n }

is_for-with_attempts :
    (email : Text) (purpose : Purpose) (o : Otp) (n : ℕ)
    → is_for (clean_email email) purpose (with_attempts o n) ≡ is_for (clean_email email) purpose o
unfolding is_for
is_for-with_attempts email purpose o n = refl

abbrev pub verify : Otp → Otp
verify o = record o { verified = true }

is_for-verify :
    (email : Text) (purpose : Purpose) (o : Otp)
    → is_for (clean_email email) purpose (verify o) ≡ is_for (clean_email email) purpose o
unfolding is_for
is_for-verify email purpose o = refl

-- The row is found by what is committed.
current-committed :
    (email : Text) (purpose : Purpose) (w v : World)
    → v.committed ≡ w.committed
    → current email purpose v ≡ current email purpose w
unfolding current
current-committed email purpose w v e =
    ap (λ (d : Db). latest (is_for (clean_email email) purpose) d.otps) e

module _ (sha256 : Text → Text) where
  unfoldable pub attempt : ℕ → Text → Purpose → Text → Action Bool
  unfolding verify_otp with_db
  attempt now email purpose code = with_db (verify_otp sha256 now email purpose code)

  attempt_missing :
      (now : ℕ) (email : Text) (purpose : Purpose) (code : Text) (w : World)
      → current email purpose w ≡ none
      → (attempt now email purpose code w).0 ≢ ok true
  unfolding attempt current
  attempt_missing now email purpose code w missing = ground (arith, missing)

  -- What a request with an open row does.
  attempt_open :
      (now : ℕ) (email : Text) (purpose : Purpose) (code : Text) (w : World) (o : Otp)
      → current email purpose w ≡ some o
      → o.attempts < 5
      → o.verified ≡ false
      → ltb o.expires_at now ≡ true ⊎ (text_eq o.otp_hash (hash_otp_code sha256 code) ≡ false)
      → ((attempt now email purpose code w).0 ≢ ok true)
        × (current email purpose (attempt now email purpose code w).1
            ≡ some (with_attempts o (o.attempts + 1)))
  unfolding attempt current
  attempt_open now email purpose code w o found room fresh bad = ground (
    arith,
    latest-update_self (is_for (clean_email email) purpose)
        (λ (r : Otp). with_attempts r (o.attempts + 1))
        (λ (r : Otp). is_for-with_attempts email purpose r (o.attempts + 1)) (λ (r : Otp). refl)
        w.committed.otps o found,
  )

  -- A request gets through if and only if its row has fewer than five attempts behind it, has not
  -- been verified, has not expired, and holds the hash of the code.
  pub attempt-ok_iff :
      (now : ℕ) (email : Text) (purpose : Purpose) (code : Text) (w : World) (o : Otp)
      → current email purpose w ≡ some o
      → ((attempt now email purpose code w).0 ≡ ok true) ↔ (
          (o.attempts < 5)
          × (o.verified ≡ false)
          × (now ≤ o.expires_at)
          × (o.otp_hash ≡ hash_otp_code sha256 code))
  unfolding attempt current
  attempt-ok_iff now email purpose code w o found = (
    λ h. ground (arith, found, text_eq_iff o.otp_hash (hash_otp_code sha256 code)),
    λ h. ground (arith, found, text_eq_iff o.otp_hash (hash_otp_code sha256 code)),
  )

  -- A request whose row has five attempts behind it or is already verified gets nowhere, and leaves
  -- the database as it is.
  pub attempt_closed :
      (now : ℕ) (email : Text) (purpose : Purpose) (code : Text) (w : World) (o : Otp)
      → current email purpose w ≡ some o
      → (5 ≤ o.attempts) ⊎ (o.verified ≡ true)
      → ((attempt now email purpose code w).0 ≢ ok true)
        × ((attempt now email purpose code w).1.committed ≡ w.committed)
  unfolding attempt current
  attempt_closed now email purpose code w o found closed = ground (arith, found)

  -- The request that gets through marks its row.
  attempt_marks :
      (now : ℕ) (email : Text) (purpose : Purpose) (code : Text) (w : World) (o : Otp)
      → current email purpose w ≡ some o
      → (attempt now email purpose code w).0 ≡ ok true
      → current email purpose (attempt now email purpose code w).1
        ≡ some (record o { attempts = o.attempts + 1; verified = true })
  unfolding attempt current
  attempt_marks now email purpose code w o found through =
      let p = is_for (clean_email email) purpose in
      let count = λ (r : Otp). with_attempts r (o.attempts + 1) in
      let mark = λ (r : Otp). verify r in
      let counted =
        latest-update_self p count
          (λ (r : Otp). is_for-with_attempts email purpose r (o.attempts + 1)) (λ (r : Otp). refl)
          w.committed.otps o found in
      ground (
        arith,
        latest-update_self p mark (λ (r : Otp). is_for-verify email purpose r) (λ (r : Otp). refl)
            (update_where (λ r. r.id == o.id) count w.committed.otps) (count o) counted,
      )

  -- A code gets through once: the request that succeeds leaves a row that refuses every later one.
  pub attempt_once :
      (now : ℕ) (email : Text) (purpose : Purpose) (code : Text) (w : World)
      → (attempt now email purpose code w).0 ≡ ok true
      → (later : ℕ) (again : Text)
      → (attempt later email purpose again (attempt now email purpose code w).1).0 ≢ ok true
  attempt_once now email purpose code w through later again =
      elim (Option-cases (current email purpose w)) [
        | inl missing ↦ absurd (attempt_missing now email purpose code w missing through)
        | inr (o, found) ↦
            (attempt_closed later email purpose again (attempt now email purpose code w).1
              (record o { attempts = o.attempts + 1; verified = true })
              (attempt_marks now email purpose code w o found through) (inr refl)).0
      ]

  -- Requests one after the other, each with its time and code.
  unfoldable pub attempts : Text → Purpose → List (ℕ × Text) → World → World
  attempts email purpose [] w = w
  attempts email purpose ((now, code) ∷ rest) w =
      attempts email purpose rest (attempt now email purpose code w).1

  -- Wrong codes count up to five, across the requests.
  wrong_codes_count :
      (email : Text) (purpose : Purpose) (guesses : List (ℕ × Text)) (w : World) (o : Otp)
      → current email purpose w ≡ some o
      → o.attempts ≤ 5
      → o.verified ≡ false
      → All (λ g. o.otp_hash ≢ hash_otp_code sha256 g.1) guesses
      → current email purpose (attempts email purpose guesses w)
        ≡ some (with_attempts o (min 5 (o.attempts + length guesses)))
  unfolding attempts
  wrong_codes_count email purpose [] w o found room fresh wrong = rw found (ground arith)
  wrong_codes_count email purpose ((now, code) ∷ rest) w o found room fresh wrong =
      let w' = (attempt now email purpose code w).1 in
      elim (dec_lt o.attempts 5) [
        | yes below ↦
            let step =
              attempt_open now email purpose code w o found below fresh
                (inr (ground (arith, text_eq_iff o.otp_hash (hash_otp_code sha256 code)))) in
            rw
              (wrong_codes_count email purpose rest w' (with_attempts o (o.attempts + 1)) step.1
                (omega arith) fresh wrong.1)
              (ground arith)
        | no above ↦
            let same = (attempt_closed now email purpose code w o found (inl (omega arith))).1 in
            rw
              (wrong_codes_count email purpose rest w' o
                (current-committed email purpose w w' same ∙ found) room fresh wrong.1)
              (ground arith)
      ]

  -- Five wrong codes, in requests one after the other, lock the row: whatever comes after, the right
  -- code included, is refused.
  pub five_wrong_codes_lock :
      (email : Text) (purpose : Purpose) (guesses : List (ℕ × Text)) (w : World) (o : Otp)
      → current email purpose w ≡ some o
      → o.attempts ≤ 5
      → o.verified ≡ false
      → All (λ g. o.otp_hash ≢ hash_otp_code sha256 g.1) guesses
      → 5 ≤ length guesses
      → (now : ℕ) (code : Text)
      → (attempt now email purpose code (attempts email purpose guesses w)).0 ≢ ok true
  five_wrong_codes_lock email purpose guesses w o found room fresh wrong many now code =
      (attempt_closed now email purpose code (attempts email purpose guesses w)
        (with_attempts o (min 5 (o.attempts + length guesses)))
        (wrong_codes_count email purpose guesses w o found room fresh wrong) (inl (omega arith))).0
