-- ===== src/Tests/Codes.antt =====
-- Examples of the one-time codes.
use ai_inference_platform.Prelude.{
  ℕ, ◌≤◌, ◌<◌, ◌≡◌, ◌≢◌, ◌↔◌, refl, true, false, some, List, [], ◌∷◌, Text, text, arith, lower,
  lstrip, rstrip, strip, text_eq,
}
use ai_inference_platform.Errors.{ok}
use ai_inference_platform.Models.{Otp, empty_db, signup, purpose_eq}
use ai_inference_platform.Session.{World, empty_world, with_db}
use ai_inference_platform.Otp.{
  hash_otp_code, clean_email, is_for, latest, generate_otp_code, store_otp, recent,
}
use ai_inference_platform.Otp.Attempts.{
  current, attempt, attempts, attempt-ok_iff, five_wrong_codes_lock,
}
use ai_inference_platform.Otp.Requests.{send, code_gets_through}

abbrev sha256 : Text → Text
sha256 t = t

abbrev ada : Text
ada = text "ada@example.org"

abbrev row : Otp
row = record {
  id = 1;
  email = ada;
  otp_hash = text "123456";
  purpose = signup;
  expires_at = 900000000;
  attempts = 0;
  verified = false;
  created_at = 600000000;
}

abbrev with_row : Otp → World
with_row o = record {
  committed = record empty_db { otps = o ∷ [] };
  db = record empty_db { otps = o ∷ [] };
  redis = [];
  outbox = [];
}

found :
    (n : ℕ)
    → current ada signup (with_row (record row { attempts = n }))
      ≡ some (record row { attempts = n })
unfolding current latest is_for clean_email strip lstrip rstrip lower purpose_eq text_eq
found n = refl

the_code : (attempt sha256 700000000 ada signup (text "123456") (with_row row)).0 ≡ ok true
the_code =
    (attempt-ok_iff sha256 700000000 ada signup (text "123456") (with_row row) row (found 0)).1
      (omega arith, refl, omega arith, unfold hash_otp_code strip lstrip rstrip in refl)

attempt-ok_iff_example :
    ((attempt sha256 700000000 ada signup (text "123456") (with_row row)).0 ≡ ok true) ↔ (
      (0 < 5)
      × (false ≡ false)
      × (700000000 ≤ 900000000)
      × (text "123456" ≡ hash_otp_code sha256 (text "123456")))
attempt-ok_iff_example =
    attempt-ok_iff sha256 700000000 ada signup (text "123456") (with_row row) row (found 0)

abbrev guesses : List (ℕ × Text)
guesses =
    (1, text "000001")
    ∷ (2, text "000002")
    ∷ (3, text "000003")
    ∷ (4, text "000004")
    ∷ (5, text "000005")
    ∷ []

five_wrong_codes_lock_example :
    (attempt sha256 700000000 ada signup
      (text "123456")
      (attempts sha256 ada signup guesses (with_row row))).0
    ≢ ok true
five_wrong_codes_lock_example =
    five_wrong_codes_lock sha256 ada signup guesses (with_row row) row (found 0) (omega arith) refl
      (unfold hash_otp_code strip lstrip rstrip in
        (ground arith, (ground arith, (ground arith, (ground arith, (ground arith, tt))))))
      (omega arith) 700000000 (text "123456")

abbrev six_digits : List ℕ
six_digits = 1 ∷ 2 ∷ 3 ∷ 4 ∷ 5 ∷ 6 ∷ []

abbrev sent : ℕ
sent = 2000000000

code_gets_through_example :
    (attempt sha256 sent ada signup
      (text "123456")
      (send sha256 1 six_digits sent sent sent ada signup empty_world).1).0
    ≡ ok true
code_gets_through_example =
    code_gets_through sha256 1 six_digits sent sent sent sent ada signup empty_world (text "123456")
      tt (unfold send store_otp recent generate_otp_code with_db in refl) (omega arith)
