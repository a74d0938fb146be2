-- ===== src/Email.antt =====
-- backend/app/services/email_service.py: who delivers a message, how often it is tried, and what
-- happens when it cannot be delivered. The templates are left out; of a message, the address and the
-- text count. Providers and the resolver are I/O: how each attempt ends is an argument.
pub mod Delivery
pub mod Exchange
use ai_inference_platform.Prelude.{
  ℕ, zero, suc, ◌+◌, ◌*◌, String, Bool, true, false, not, ◌&&◌, ◌||◌, Option, none, some, is_some,
  List, [], ◌∷◌, ◌++◌, Text, text, text_eq, lower, ltb, leb, ◌==◌, if◌then◌else◌, rstrip,
}
use ai_inference_platform.Errors.{Error, Result, ok, err, unhandled, runtime_error, Exception}

-- The settings, with `SMTP_PORT` 0 where it is missing.
pub record MailSettings : Type 0 where
  pub resend_api_key : Text
  pub smtp_host : Text
  pub smtp_port : ℕ
  pub debug : Bool

pub data Provider : Type 0 where
  console resend : Provider
  smtp : (host : Text) → (port : ℕ) → Provider

abbrev pub is_set : Text → Bool
is_set [] = false
is_set (c ∷ t) = true

unfoldable pub get_email_provider : MailSettings → Provider
get_email_provider s =
    if is_set s.resend_api_key
    then resend
    else if is_set s.smtp_host && not (s.smtp_port == 0)
    then smtp s.smtp_host s.smtp_port
    else console

-- An answer of the resolver that is a mail exchanger with a preference and a host, or another.
pub data Answer : Type 0 where
  mx : (preference : ℕ) → (host : Text) → Answer
  other_answer : Answer

abbrev pub is_dot : ℕ → Bool
is_dot c = c == b'.'

unfoldable pub mx_records : List Answer → List (ℕ × Text)
mx_records [] = []
mx_records (mx preference host ∷ answers) = (preference, rstrip is_dot host) ∷ mx_records answers
mx_records (other_answer ∷ answers) = mx_records answers

-- `mx_records.sort(key=lambda x: x[0])`, which is stable, and the host of the first.
unfoldable pub insert : ℕ × Text → List (ℕ × Text) → List (ℕ × Text)
insert record_ [] = record_ ∷ []
insert record_ (r ∷ rs) =
    let rest = insert record_ rs in if leb record_.0 r.0 then record_ ∷ r ∷ rs else r ∷ rest

unfoldable pub sort : List (ℕ × Text) → List (ℕ × Text)
unfolding insert
sort [] = []
sort (r ∷ rs) = insert r (sort rs)

abbrev pub first_host : List (ℕ × Text) → Option Text
first_host [] = none
first_host (r ∷ rs) = some r.1

-- The answers of the resolver, where it answers with status 200 and JSON that can be read.
unfoldable pub resolve_mx_host : Option (List Answer) → Option Text
unfolding mx_records sort
resolve_mx_host none = none
resolve_mx_host (some answers) = first_host (sort (mx_records answers))

abbrev pub has_at_sign : Text → Bool
has_at_sign [] = false
has_at_sign (c ∷ t) = let rest = has_at_sign t in if c == b'@' then true else rest

-- `email.split("@")[-1]`
unfoldable pub after_last_at : Text → Text
after_last_at [] = []
after_last_at (c ∷ t) =
    let rest = after_last_at t in if has_at_sign t then rest else if c == b'@' then t else c ∷ t

unfoldable pub domain_of : (email : Text) → Text
unfolding after_last_at lower
domain_of email = if has_at_sign email then lower (after_last_at email) else []

abbrev pub is_mock : Text → Bool
is_mock domain =
    text_eq domain (text "example.com")
    || text_eq domain (text "test.com")
    || text_eq domain (text "infervoyage.local")
    || text_eq domain (text "localhost")

unfoldable pub uses_real_provider : MailSettings → Bool
uses_real_provider s =
    if is_set s.resend_api_key
    then true
    else is_set s.smtp_host && not (text_eq s.smtp_host (text "mailpit"))

-- `if mx_host: provider = SmtpEmailProvider(host=mx_host, port=25, …)`
abbrev pub at_host : Option Text → Provider → Provider
at_host none fallback = fallback
at_host (some []) fallback = fallback
at_host (some (c ∷ t)) fallback = smtp (c ∷ t) 25

unfoldable pub choose_provider :
    (resolve : Text → Option (List Answer)) → MailSettings → (email : Text) → Provider
unfolding get_email_provider uses_real_provider resolve_mx_host domain_of
choose_provider resolve s email =
    let domain = domain_of email in
    let direct = at_host (resolve_mx_host (resolve domain)) (get_email_provider s) in
    if uses_real_provider s
    then get_email_provider s
    else if is_set domain && not (is_mock domain)
    then direct
    else get_email_provider s

-- How an attempt ends: the message is taken, Resend answers with another status, or there is an
-- exception.
pub data Attempt : Type 0 where
  taken refused : Attempt
  raised : Exception → Attempt

-- The number of attempts, the seconds slept in between, and how it ends.
pub record Dispatch : Type 0 where
  pub attempts : ℕ
  pub slept : ℕ
  pub result : Result (Unit {0})

-- `backoff ** attempt`
unfoldable pub pause : ℕ → ℕ
pause zero = 1
pause (suc n) = 2 * pause n

-- The error of the last attempt: SMTP raises that of the attempt, Resend one of its own.
abbrev pub last_error : Provider → Attempt → Error
last_error (smtp host port) (raised e) = unhandled e
last_error _ _ = unhandled runtime_error

abbrev pub is_taken : Attempt → Bool
is_taken taken = true
is_taken _ = false

abbrev pub try_once : (last : Bool) → Provider → Attempt → (attempt slept : ℕ) → Dispatch → Dispatch
try_once last provider outcome attempt slept later =
    if is_taken outcome
    then record { attempts = attempt + 1; slept = slept; result = ok tt }
    else if last
    then record {
      attempts = attempt + 1;
      slept = slept;
      result = err (last_error provider outcome);
    }
    else later

-- `for attempt in range(max_retries)`, with `left` attempts to go.
unfoldable pub retry :
    (left : ℕ) → Provider → (outcome : ℕ → Attempt) → (attempt slept : ℕ) → Dispatch
unfolding pause
retry zero provider outcome attempt slept = record {
  attempts = attempt;
  slept = slept;
  result = ok tt;
}
retry (suc left) provider outcome attempt slept =
    try_once (left == 0) provider (outcome attempt) attempt slept
      (retry left provider outcome (attempt + 1) (slept + pause attempt))

-- `send_email` of the provider; the console takes every message.
unfoldable pub send_email : Provider → (outcome : ℕ → Attempt) → Dispatch
unfolding retry
send_email console outcome = record { attempts = 1; slept = 0; result = ok tt }
send_email resend outcome = retry 3 resend outcome 0 0
send_email (smtp host port) outcome = retry 3 (smtp host port) outcome 0 0

-- What a call does: the dispatch, the copies of the message that are printed, the status that is
-- counted, and what is raised.
pub record Sent : Type 0 where
  pub dispatch : Dispatch
  pub printed : ℕ
  pub status : String
  pub result : Result (Unit {0})

abbrev pub printed_first : MailSettings → ℕ
printed_first s = if s.debug || text_eq s.smtp_host (text "mailpit") then 1 else 0

abbrev pub printed_by : Provider → ℕ
printed_by console = 1
printed_by _ = 0

abbrev pub conclude : (before : ℕ) → Provider → Dispatch → Result (Unit {0}) → Sent
conclude before provider d (ok done) = record {
  dispatch = d;
  printed = before + printed_by provider;
  status = "success";
  result = ok tt;
}
conclude before provider d (err e) = record {
  dispatch = d;
  printed = before + 1;
  status = "failure";
  result = ok tt;
}

-- `send_otp_verification_email` and `send_password_reset_email`, which differ in their texts.
unfoldable pub send_code :
    (resolve : Text → Option (List Answer))
    → MailSettings
    → (email : Text) → (outcome : ℕ → Attempt) → Sent
unfolding choose_provider send_email
send_code resolve s email outcome =
    let provider = choose_provider resolve s email in
    let d = send_email provider outcome in conclude (printed_first s) provider d d.result
