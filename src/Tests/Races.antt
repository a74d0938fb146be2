-- ===== src/Tests/Races.antt =====
-- Examples of requests for codes, and of guesses of codes, at the same time.
use ai_inference_platform.Prelude.{
  All, ◌+◌, ◌≤◌, ◌≡◌, refl, false, true, List, [], ◌∷◌, Text, text, text_eq, strip, lstrip, rstrip,
  arith, length,
}
use ai_inference_platform.Errors.{ok}
use ai_inference_platform.Models.{Otp, signup, purpose_eq, empty_db}
use ai_inference_platform.RefreshTokens.{any}
use ai_inference_platform.Session.{World, empty_world, with_db}
use ai_inference_platform.Otp.{is_for, recent, hash_otp_code}
use ai_inference_platform.Otp.Guesses.{IsWrong, conclude_guess, guess_all, guesses_at_once}
use ai_inference_platform.Otp.Requests.{window}
use ai_inference_platform.Otp.Races.{
  Race, Event, begins, commits, pick, step, run, AreFew, codes_in_a_race,
}
use ai_inference_platform.Otp.Races.Limit.{race_reaches_the_bound}

abbrev ada : Text
ada = text "ada@x.com"

abbrev row : Otp
row = record {
  id = 1;
  email = ada;
  otp_hash = text "123456";
  purpose = signup;
  expires_at = 300000005;
  attempts = 0;
  verified = false;
  created_at = 5;
}

abbrev empty : Race
empty = record { otps = []; pending = [] }

abbrev events : List Event
events = begins 1 row ∷ begins 2 (record row { id = 2 }) ∷ commits 1 ∷ commits 0 ∷ []

codes_in_a_race_example : length (window ada signup 0 (run events empty).otps) ≤ 4
codes_in_a_race_example =
    codes_in_a_race ada signup 0 2 events []
      (unfold AreFew step pick recent is_for text_eq purpose_eq any in
        (
          omega arith,
          omega arith,
          (omega arith, omega arith, (omega arith, tt, (omega arith, tt, omega arith))),
        ))
      (unfold window in omega arith)

race_reaches_the_bound_example :
    (es : List Event) × (AreFew 5 es empty
      × (length (window ada signup 0 (run es empty).otps) ≡ length (window ada signup 0 []) + 5))
race_reaches_the_bound_example =
    race_reaches_the_bound 5 2 row 0 [] (omega arith) (omega arith) (omega arith)
      (unfold recent in omega arith)

abbrev sha256 : Text → Text
sha256 t = t

abbrev stored : World
stored = record empty_world { committed = record empty_db { otps = row ∷ [] } }

first-IsWrong : IsWrong sha256 row (text "000000")
unfolding hash_otp_code text_eq strip lstrip rstrip
first-IsWrong = refl

others-IsWrong : All (IsWrong sha256 row) (text "000001" ∷ text "000002" ∷ [])
unfolding hash_otp_code text_eq strip lstrip rstrip
others-IsWrong = (refl, (refl, tt))

guesses_at_once_example :
    let w' = guess_all sha256 row 6 (text "000000" ∷ text "000001" ∷ text "000002" ∷ []) stored in
    (w'.committed.otps ≡ record row { attempts = 1 } ∷ [])
    × ((with_db (conclude_guess sha256 row 6 (text "123456")) w').0 ≡ ok true)
guesses_at_once_example =
    guesses_at_once sha256 row 6 (text "000000") (text "000001" ∷ text "000002" ∷ [])
      (text "123456") stored (omega arith) (omega arith) first-IsWrong others-IsWrong
      (unfold hash_otp_code strip lstrip rstrip in refl)
