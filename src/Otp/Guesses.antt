-- ===== src/Otp/Guesses.antt =====
-- backend/app/services/otp_service.py: `verify_otp` in sessions that run at the same time. A session
-- reads the row of the code; what it writes back is the counter that it read, and one more.
use ai_inference_platform.Prelude.{
  ℕ, ◌+◌, ◌≤◌, ◌≡◌, ◌∙◌, sym, refl, ap, Bool, true, false, some, List, [], ◌∷◌, update_where, All,
  arith, Text, text_eq, text_eq_iff, ◌==◌, Bool-cases, inl, inr,
}
use ai_inference_platform.Errors.{ok}
use ai_inference_platform.Models.{Otp, Purpose}
use ai_inference_platform.Session.{World, Action, with_db, change, ◌>>◌}
use ai_inference_platform.Otp.{
  latest, is_for, clean_email, hash_otp_code, update_otp, check_code, verify_otp,
}

abbrev pub counted : Otp → List Otp → List Otp
counted o = update_where (λ r. r.id == o.id) (λ r. record r { attempts = o.attempts + 1 })

counted-counted : (o : Otp) (os : List Otp) → counted o (counted o os) ≡ counted o os
counted-counted o [] = refl
counted-counted o (r ∷ os) = elim (Bool-cases (r.id == o.id)) [
  | inl mine ↦ rw (mine, counted-counted o os) (rw mine refl)
  | inr other ↦ rw (other, counted-counted o os) (rw other refl)
]

module _ (sha256 : Text → Text) where
  -- What a session does with the row that it has read and let pass.
  unfoldable pub conclude_guess : Otp → (now : ℕ) → (code : Text) → Action Bool
  conclude_guess o now code = do
    change (update_otp o.id (λ r. record r { attempts = o.attempts + 1 }))
    check_code sha256 o (o.attempts + 1) now code

  -- A session alone reads the row and concludes.
  pub verify_otp-conclude_guess :
      (o : Otp) (now : ℕ) (email : Text) (purpose : Purpose) (code : Text) (w : World)
      → latest (is_for (clean_email email) purpose) w.db.otps ≡ some o
      → o.attempts ≤ 4
      → o.verified ≡ false
      → verify_otp sha256 now email purpose code w ≡ conclude_guess o now code w
  unfolding verify_otp conclude_guess
  verify_otp-conclude_guess o now email purpose code w found few fresh =
      ground (arith, found, few, fresh)

  -- Sessions that have all read the row, one after the other.
  unfoldable pub guess_all : Otp → (now : ℕ) → (codes : List Text) → World → World
  unfolding conclude_guess
  guess_all o now [] w = w
  guess_all o now (code ∷ codes) w = guess_all o now codes (with_db (conclude_guess o now code) w).1

  abbrev pub IsWrong : Otp → Text → Type 0
  IsWrong o code = text_eq o.otp_hash (hash_otp_code sha256 code) ≡ false

  wrong_guess :
      (o : Otp) (now : ℕ) (code : Text) (w : World)
      → IsWrong o code
      → (with_db (conclude_guess o now code) w).1.committed.otps ≡ counted o w.committed.otps
  unfolding with_db conclude_guess check_code
  wrong_guess o now code w wrong = ground (arith, wrong)

  wrong_guesses :
      (o : Otp) (now : ℕ) (code : Text) (codes : List Text) (w : World)
      → IsWrong o code
      → All (IsWrong o) codes
      → (guess_all o now (code ∷ codes) w).committed.otps ≡ counted o w.committed.otps
  unfolding guess_all
  wrong_guesses o now code [] w wrong more = wrong_guess o now code w wrong
  wrong_guesses o now code (next ∷ codes) w wrong (one, more) =
      wrong_guesses o now next codes (with_db (conclude_guess o now code) w).1 one more
      ∙ (ap (counted o) (wrong_guess o now code w wrong) ∙ counted-counted o w.committed.otps)

  -- Where sessions have all read a row that is not locked, any number of wrong codes counts as one
  -- attempt, and the right code after them is accepted within its time.
  pub guesses_at_once :
      (o : Otp) (now : ℕ) (wrong : Text) (wrongs : List Text) (code : Text) (w : World)
      → o.attempts ≤ 4
      → now ≤ o.expires_at
      → IsWrong o wrong
      → All (IsWrong o) wrongs
      → hash_otp_code sha256 code ≡ o.otp_hash
      → let w' = guess_all o now (wrong ∷ wrongs) w in
        (w'.committed.otps ≡ counted o w.committed.otps)
        × ((with_db (conclude_guess o now code) w').0 ≡ ok true)
  guesses_at_once o now wrong wrongs code w few intime one more right =
      let w' = guess_all o now (wrong ∷ wrongs) w in
      let same = (text_eq_iff o.otp_hash (hash_otp_code sha256 code)).1 (sym right) in
      (
        wrong_guesses o now wrong wrongs w one more,
        unfold with_db conclude_guess check_code in ground (arith, few, intime, same),
      )
