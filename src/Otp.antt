-- ===== src/Otp.antt =====
-- backend/app/services/otp_service.py: one-time codes, stored by hash, with a limit on requests, a
-- limit on attempts, an expiry and single use.
--
-- SHA-256 is a parameter. The six draws of `secrets.randbelow(10)`, the id of a new row and each
-- reading of the clock are arguments. Of several rows created at the same microsecond the query of
-- `verify_otp` may return any; here it returns the one stored last.
pub mod Latest
pub mod Attempts
pub mod Requests
pub mod Recovery
pub mod Races
pub mod Guesses
use ai_inference_platform.Prelude.{
  ℕ, ◌+◌, ◌*◌, Bool, true, false, not, ◌&&◌, Option, none, some, List, [], ◌∷◌, ◌++◌, map, Text,
  text_eq, strip, lower, select, update_where, length, ltb, leb, ◌==◌, if◌then◌else◌,
}
use ai_inference_platform.Errors.{ok, err, app_error, validation}
use ai_inference_platform.Models.{Db, Otp, Purpose, purpose_eq}
use ai_inference_platform.Session.{
  World, Action, pure, raise, query, raise_if, or_raise, change, commit, ◌>>=◌, ◌>>◌,
}

-- `timedelta(minutes=n)`
abbrev pub minutes : ℕ → ℕ
minutes n = n * 60000000

-- `"".join(str(secrets.randbelow(10)) for _ in range(6))`, from the digits drawn
unfoldable pub generate_otp_code : List ℕ → Text
generate_otp_code digits = map (λ d. b'0' + d) digits

unfoldable pub hash_otp_code : (Text → Text) → Text → Text
hash_otp_code sha256 code = sha256 (strip code)

-- `email.strip().lower()`
unfoldable pub clean_email : Text → Text
clean_email email = lower (strip email)

-- `Otp.email == email_clean, Otp.purpose == purpose`
unfoldable pub is_for : Text → Purpose → Otp → Bool
is_for email purpose o = text_eq o.email email && purpose_eq o.purpose purpose

-- The newer of a row and the newest of the rows after it.
abbrev pub newer : Otp → Option Otp → Option Otp
newer o none = some o
newer o (some p) = if ltb p.created_at o.created_at then some o else some p

-- `.order_by(Otp.created_at.desc()).limit(1)`
unfoldable pub latest : (Otp → Bool) → List Otp → Option Otp
latest p [] = none
latest p (o ∷ os) = let rest = latest p os in if p o then newer o rest else rest

-- `created_at >= now - timedelta(minutes=15)`
abbrev pub is_recent : ℕ → Otp → Bool
is_recent now o = leb now (o.created_at + minutes 15)

unfoldable pub recent : Text → Purpose → ℕ → List Otp → List Otp
recent email purpose now = select (λ o. is_for email purpose o && is_recent now o)

abbrev pub too_many_requests : Action (Unit {0})
too_many_requests =
    raise (app_error validation "Too many requests. Please wait before trying again.")

-- A change of the row that `otp_record` stands for.
abbrev pub update_otp : ℕ → (Otp → Otp) → Db → Db
update_otp id f db = record db { otps = update_where (λ o. o.id == id) f db.otps }

module _ (sha256 : Text → Text) where
  -- The clock is read for the limit, for the expiry and for the row's default `created_at`.
  unfoldable pub store_otp :
      (id : ℕ) (digits : List ℕ) (checked expiry_from created : ℕ) → Text → Purpose → Action Text
  unfolding clean_email recent generate_otp_code hash_otp_code
  store_otp id digits checked expiry_from created email purpose = do
    let email_clean = clean_email email
    existing_otps ← query (λ db. recent email_clean purpose checked db.otps)
    if leb 3 (length existing_otps) then too_many_requests else pure tt
    let code = generate_otp_code digits
    change (λ db. record db {
      otps =
          db.otps
          ++ record {
            id = id;
            email = email_clean;
            otp_hash = hash_otp_code sha256 code;
            purpose = purpose;
            expires_at = expiry_from + minutes 5;
            attempts = 0;
            verified = false;
            created_at = created;
          }
            ∷ [];
    })
    pure code

  -- The tail of `verify_otp`, from the increment of the attempt counter on. `attempts` is the
  -- counter after the increment.
  unfoldable pub check_code : Otp → (attempts now : ℕ) → Text → Action Bool
  unfolding hash_otp_code
  check_code o attempts now code =
      if ltb 5 attempts
      then (do
        commit
        raise (
            app_error validation
              "Maximum verification attempts exceeded. Please request a new code."))
      else if ltb o.expires_at now
      then (do
        commit
        raise
            (app_error validation "The verification code has expired. Please request a new code."))
      else if not (text_eq o.otp_hash (hash_otp_code sha256 code))
      then (if leb 5 attempts
          then (do
            commit
            raise (
                app_error validation
                  "Maximum verification attempts exceeded. Please request a new code."))
          else (do commit; raise (app_error validation "Invalid verification code.")))
      else (do change (update_otp o.id (λ r. record r { verified = true })); pure true)

  unfoldable pub verify_otp : (now : ℕ) → Text → Purpose → Text → Action Bool
  unfolding clean_email latest check_code
  verify_otp now email purpose code = do
    found ← query (λ db. latest (is_for (clean_email email) purpose) db.otps)
    otp_record ← or_raise found (app_error validation "Invalid verification code.")
    raise_if (leb 5 otp_record.attempts)
        (app_error validation "Maximum verification attempts exceeded. Please request a new code.")
    raise_if otp_record.verified
        (app_error validation "This code has already been verified. Please request a new code.")
    change (update_otp otp_record.id (λ r. record r { attempts = otp_record.attempts + 1 }))
    check_code otp_record (otp_record.attempts + 1) now code

-- `DELETE … WHERE expires_at < now`
unfoldable pub cleanup_expired_otps : (now : ℕ) → Action (Unit {0})
cleanup_expired_otps now =
    change (λ db. record db { otps = select (λ o. leb now o.expires_at) db.otps })
