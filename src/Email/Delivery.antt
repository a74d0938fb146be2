-- ===== src/Email/Delivery.antt =====
-- How often a message with a code is tried, and what becomes of it.
use ai_inference_platform.Prelude.{
  ℕ, zero, suc, ◌+◌, ◌≤◌, ◌<◌, ◌≡◌, ◌⊎◌, inl, inr, refl, true, false, Option, List, Text, arith,
  Bool-cases,
}
use ai_inference_platform.Errors.{ok}
use ai_inference_platform.Email.{
  printed_first, MailSettings, Provider, console, resend, smtp, Answer, Attempt, is_taken, retry,
  pause, send_email, choose_provider, Sent, send_code, conclude,
}

-- The attempt that took the message comes after ones that did not; the call counts a success.
abbrev pub IsDelivered : (outcome : ℕ → Attempt) → Sent → Type 0
IsDelivered outcome r =
    (k : ℕ) × ((is_taken (outcome k) ≡ true)
      × ((j : ℕ) → j < k → is_taken (outcome j) ≡ false)
      × (r.dispatch.attempts ≡ k + 1)
      × (r.dispatch.attempts ≤ 3)
      × (r.status ≡ "success"))

-- All three attempts failed; the call counts a failure and prints the message.
abbrev pub IsPrinted : (outcome : ℕ → Attempt) → Sent → Type 0
IsPrinted outcome r =
    ((j : ℕ) → j < 3 → is_taken (outcome j) ≡ false)
    × (r.dispatch.attempts ≡ 3)
    × (r.dispatch.slept ≡ 3)
    × (r.status ≡ "failure")
    × (0 < r.printed)

module _ (P : ℕ → Type 0) where
  below_one : P 0 → (j : ℕ) → j < 1 → P j
  below_one a zero h = a
  below_one a (suc j) h = absurd (omega (arith, h))

  below_two : P 0 → P 1 → (j : ℕ) → j < 2 → P j
  below_two a b zero h = a
  below_two a b (suc zero) h = b
  below_two a b (suc (suc j)) h = absurd (omega (arith, h))

  below_three : P 0 → P 1 → P 2 → (j : ℕ) → j < 3 → P j
  below_three a b c zero h = a
  below_three a b c (suc zero) h = b
  below_three a b c (suc (suc zero)) h = c
  below_three a b c (suc (suc (suc j))) h = absurd (omega (arith, h))

abbrev pub IsSettled : (outcome : ℕ → Attempt) → Sent → Type 0
IsSettled outcome r = (r.result ≡ ok tt) × (IsDelivered outcome r ⊎ IsPrinted outcome r)

retry-IsSettled :
    (before : ℕ) (provider : Provider) (outcome : ℕ → Attempt)
    → IsSettled outcome (
        conclude before provider
          (retry 3 provider outcome 0 0)
          (retry 3 provider outcome 0 0).result)
unfolding retry pause
retry-IsSettled before provider outcome = elim (Bool-cases (is_taken (outcome 0))) [
  | inl a ↦
      rw (retry, a) (refl, inl (0, (a, λ j h. absurd (omega (arith, h)), refl, omega arith, refl)))
  | inr a ↦ elim (Bool-cases (is_taken (outcome 1))) [
    | inl b ↦
        rw (retry, a, b)
          (
            refl,
            inl (1, (b, below_one (λ j. is_taken (outcome j) ≡ false) a, refl, omega arith, refl)),
          )
    | inr b ↦ elim (Bool-cases (is_taken (outcome 2))) [
      | inl c ↦
          rw (retry, a, b, c)
            (
              refl,
              inl (
                2,
                (c, below_two (λ j. is_taken (outcome j) ≡ false) a b, refl, omega arith, refl),
              ),
            )
      | inr c ↦
          rw (retry, a, b, c)
            (
              refl,
              inr (
                below_three (λ j. is_taken (outcome j) ≡ false) a b c,
                refl,
                refl,
                refl,
                omega arith,
              ),
            )
    ]
  ]
]

abbrev pub IsHandled : (provider : Provider) → (outcome : ℕ → Attempt) → Sent → Type 0
IsHandled provider outcome r =
    (r.result ≡ ok tt)
    × (((provider ≡ console) × (0 < r.printed)) ⊎ (IsDelivered outcome r ⊎ IsPrinted outcome r))

send_by-IsHandled :
    (before : ℕ) (provider : Provider) (outcome : ℕ → Attempt)
    → IsHandled provider outcome (
        conclude before provider (send_email provider outcome) (send_email provider outcome).result)
unfolding send_email
send_by-IsHandled before console outcome = (refl, inl (refl, omega arith))
send_by-IsHandled before resend outcome =
    let (fine, settled) = retry-IsSettled before resend outcome in (fine, inr settled)
send_by-IsHandled before (smtp host port) outcome =
    let (fine, settled) = retry-IsSettled before (smtp host port) outcome in (fine, inr settled)

-- Sending a code never raises. Either the console is the provider, and prints it; or one of at most
-- three attempts is taken, after which none follows; or all three fail after 3 seconds of pauses,
-- and the code is printed.
pub send_code-IsHandled :
    (resolve : Text → Option (List Answer)) (s : MailSettings) (email : Text)
    (outcome : ℕ → Attempt)
    → IsHandled (choose_provider resolve s email) outcome (send_code resolve s email outcome)
unfolding send_code
send_code-IsHandled resolve s email outcome =
    send_by-IsHandled (printed_first s) (choose_provider resolve s email) outcome
