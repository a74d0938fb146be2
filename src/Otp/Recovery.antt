-- ===== src/Otp/Recovery.antt =====
-- Requests for a code after others: the limit passes.
use ai_inference_platform.Prelude.{
  ℕ, ◌+◌, ◌≤◌, ◌<◌, ◌≡◌, refl, ap, List, [], ◌∷◌, ◌++◌, length, All, arith, Text, inl, inr,
}
use ai_inference_platform.Errors.{ok}
use ai_inference_platform.Models.{Otp, Purpose}
use ai_inference_platform.Session.{World}
use ai_inference_platform.Otp.{minutes, clean_email, recent, generate_otp_code}
use ai_inference_platform.Otp.Requests.{send, send_cases, new_otp}

-- A request for a code, with what it draws and the readings of the clock.
pub record Demand : Type 0 where
  pub id : ℕ
  pub digits : List ℕ
  pub checked : ℕ
  pub expiry_from : ℕ
  pub created : ℕ
  pub email : Text
  pub purpose : Purpose

abbrev pub AreBefore : ℕ → List Otp → Type 0
AreBefore t = All (λ o. o.created_at ≤ t)

AreBefore-append :
    (t : ℕ) (os : List Otp) (o : Otp)
    → AreBefore t os
    → o.created_at ≤ t
    → AreBefore t (os ++ o ∷ [])
AreBefore-append t [] o h le = (le, tt)
AreBefore-append t (p ∷ os) o (one, h) le = (one, AreBefore-append t os o h le)

none_recent :
    (email : Text) (purpose : Purpose) (t now : ℕ) (os : List Otp)
    → AreBefore t os
    → t + minutes 15 < now
    → recent email purpose now os ≡ []
unfolding recent
none_recent email purpose t now [] h late = refl
none_recent email purpose t now (o ∷ os) (one, h) late =
    ground (arith, one, late, none_recent email purpose t now os h late)

module _ (sha256 : Text → Text) where
  -- The requests in order, each in a session of its own.
  unfoldable pub send_all : List Demand → World → World
  send_all [] w = w
  send_all (d ∷ ds) w =
      send_all ds
        (send sha256 d.id d.digits d.checked d.expiry_from d.created d.email d.purpose w).1

  send-AreBefore :
      (d : Demand) (t : ℕ) (w : World)
      → d.created ≤ t
      → AreBefore t w.committed.otps
      → AreBefore t
          (send sha256 d.id d.digits d.checked d.expiry_from d.created d.email d.purpose
            w).1.committed.otps
  send-AreBefore d t w le h =
      elim (send_cases sha256 d.id d.digits d.checked d.expiry_from d.created d.email d.purpose w) [
        | inl (many, refused, same) ↦ rw same h
        | inr (few, accepted, added) ↦ rw added (
            AreBefore-append t w.committed.otps
              (new_otp sha256 d.id d.digits d.expiry_from d.created d.email d.purpose) h le)
      ]

  send_all-AreBefore :
      (ds : List Demand) (t : ℕ) (w : World)
      → All (λ d. d.created ≤ t) ds
      → AreBefore t w.committed.otps
      → AreBefore t (send_all ds w).committed.otps
  unfolding send_all
  send_all-AreBefore [] t w made h = h
  send_all-AreBefore (d ∷ ds) t w (one, made) h =
      send_all-AreBefore ds t
        (send sha256 d.id d.digits d.checked d.expiry_from d.created d.email d.purpose w).1 made
        (send-AreBefore d t w one h)

  -- Whatever requests for codes there have been, for whatever addresses, a request more than fifteen
  -- minutes after the last of their codes was made gets a code.
  pub code_after_a_pause :
      (ds : List Demand) (d : Demand) (t : ℕ) (w : World)
      → AreBefore t w.committed.otps
      → All (λ e. e.created ≤ t) ds
      → t + minutes 15 < d.checked
      → (send sha256 d.id d.digits d.checked d.expiry_from d.created d.email d.purpose
          (send_all ds w)).0
        ≡ ok (generate_otp_code d.digits)
  code_after_a_pause ds d t w before made late =
      let w' = send_all ds w in
      let none =
        none_recent (clean_email d.email) d.purpose t d.checked w'.committed.otps
          (send_all-AreBefore ds t w made before) late in
      elim (send_cases sha256 d.id d.digits d.checked d.expiry_from d.created d.email d.purpose
        w') [
          | inl (many, refused, same) ↦ absurd (omega (arith, ap length none, many))
          | inr (few, accepted, added) ↦ accepted
        ]
