-- ===== src/Otp/Requests.antt =====
-- Requests for a code: the limit of three in fifteen minutes, and the way of a code from `store_otp`
-- to `verify_otp`.
use ai_inference_platform.Prelude.{
  ℕ, ◌+◌, ◌≤◌, ◌≡◌, ◌↔◌, ◌⊎◌, inl, inr, refl, Bool, true, false, ◌&&◌, some, List, [], ◌∷◌, ◌++◌,
  length, length-append, select, select-append, All, arith, Text, text_eq_iff, leb, Bool-cases, ap,
}
use ai_inference_platform.Errors.{ok, err, app_error, validation}
use ai_inference_platform.Models.{Otp, Purpose, purpose_eq_iff}
use ai_inference_platform.Session.{World, Action, with_db}
use ai_inference_platform.Otp.{
  minutes, is_for, clean_email, hash_otp_code, generate_otp_code, recent, store_otp,
}
use ai_inference_platform.Otp.Latest.{latest-append}
use ai_inference_platform.Otp.Attempts.{current, attempt, attempt-ok_iff}

-- The rows for an address and a purpose that were created in the fifteen minutes from `from` on.
unfoldable pub window : Text → Purpose → ℕ → List Otp → List Otp
window email purpose from =
    select
      (λ o. is_for email purpose o && leb from o.created_at && leb o.created_at (from + minutes 15))

-- No fifteen minutes hold more than three rows for one address and purpose.
pub record IsLimited (email : Text) (purpose : Purpose) (otps : List Otp) : Type 0 where
  pub within : (from : ℕ) → length (window email purpose from otps) ≤ 3

length-select-le-select :
    (p q : Otp → Bool) (xs : List Otp)
    → ((o : Otp) → p o ≡ true → q o ≡ true)
    → length (select p xs) ≤ length (select q xs)
length-select-le-select p q [] h = omega arith
length-select-le-select p q (x ∷ xs) h = ground (arith, h x, length-select-le-select p q xs h)

-- A row created no earlier than the check, after fewer than three recent ones.
pub window-le_recent :
    (email : Text) (purpose : Purpose) (from checked : ℕ) (otps : List Otp)
    → checked ≤ from + minutes 15
    → length (window email purpose from otps) ≤ length (recent email purpose checked otps)
unfolding window recent
window-le_recent email purpose from checked otps h =
    length-select-le-select _ _ otps (λ o e. ground arith)

-- The row for the address and purpose itself.
pub is_for_iff :
    (email : Text) (purpose : Purpose) (o : Otp)
    → (is_for email purpose o ≡ true) ↔ ((o.email ≡ email) × (o.purpose ≡ purpose))
unfolding is_for
is_for_iff email purpose o = (
  λ h. ground (arith, text_eq_iff o.email email, purpose_eq_iff o.purpose purpose),
  λ h. ground (arith, text_eq_iff o.email email, purpose_eq_iff o.purpose purpose),
)

window-append-le :
    (email : Text) (purpose : Purpose) (from checked : ℕ) (otps : List Otp) (o : Otp)
    → length (window email purpose from otps) ≤ 3
    → checked ≤ o.created_at
    → length (recent o.email o.purpose checked otps) ≤ 2
    → length (window email purpose from (otps ++ o ∷ [])) ≤ 3
window-append-le email purpose from checked otps o old fwd few =
    elim (Bool-cases (is_for email purpose o && leb o.created_at (from + minutes 15))) [
      | inl here ↦
          let same = (is_for_iff email purpose o).0 (ground arith) in
          let few' : length (recent email purpose checked otps) ≤ 2 = rw (same.0, same.1) at few in
          let small = window-le_recent email purpose from checked otps (ground arith) in
          unfold window in rw select-append (rw length-append (ground arith))
      | inr there ↦ unfold window in rw select-append (rw length-append (ground arith))
    ]

module _ (sha256 : Text → Text) where
  -- `store_otp` in a session of its own.
  unfoldable pub send :
      (id : ℕ) (digits : List ℕ) (checked expiry_from created : ℕ) → Text → Purpose → Action Text
  unfolding store_otp with_db
  send id digits checked expiry_from created email purpose =
      with_db (store_otp sha256 id digits checked expiry_from created email purpose)

  -- The row that `store_otp` adds.
  abbrev pub new_otp : (id : ℕ) (digits : List ℕ) (expiry_from created : ℕ) → Text → Purpose → Otp
  new_otp id digits expiry_from created email purpose = record {
    id = id;
    email = clean_email email;
    otp_hash = hash_otp_code sha256 (generate_otp_code digits);
    purpose = purpose;
    expires_at = expiry_from + minutes 5;
    attempts = 0;
    verified = false;
    created_at = created;
  }

  -- What a request for a code does, by how many there have been.
  pub send_cases :
      (id : ℕ) (digits : List ℕ) (checked expiry_from created : ℕ) (email : Text)
      (purpose : Purpose) (w : World)
      → let r = send id digits checked expiry_from created email purpose w in
        ((3 ≤ length (recent (clean_email email) purpose checked w.committed.otps))
          × (r.0 ≡ err (app_error validation "Too many requests. Please wait before trying again."))
          × (r.1.committed.otps ≡ w.committed.otps))
        ⊎ ((length (recent (clean_email email) purpose checked w.committed.otps) ≤ 2)
            × (r.0 ≡ ok (generate_otp_code digits))
            × (r.1.committed.otps
                ≡ w.committed.otps ++ new_otp id digits expiry_from created email purpose ∷ []))
  unfolding send
  send_cases id digits checked expiry_from created email purpose w = ground arith

  -- A request for a code, for any address and purpose, keeps the limit of every address and
  -- purpose, if the clock does not go back between its check and the row's creation.
  pub send-IsLimited :
      (id : ℕ) (digits : List ℕ) (checked expiry_from created : ℕ) (email : Text)
      (purpose : Purpose) (w : World) (to : Text) (for_what : Purpose)
      → checked ≤ created
      → IsLimited to for_what w.committed.otps
      → IsLimited to for_what
          (send id digits checked expiry_from created email purpose w).1.committed.otps
  send-IsLimited id digits checked expiry_from created email purpose w to for_what fwd lim =
      elim (send_cases id digits checked expiry_from created email purpose w) [
        | inl (many, refused, same) ↦ rw same lim
        | inr (few, accepted, added) ↦ rw added (record {
          within = λ from.
              window-append-le to for_what from checked w.committed.otps
                (new_otp id digits expiry_from created email purpose) (lim.within from) fwd few;
        })
      ]

  -- A code that a request returned gets through: with no row created later than the new one, it is
  -- accepted for its address and purpose during the five minutes after it was made.
  pub code_gets_through :
      (id : ℕ) (digits : List ℕ) (checked expiry_from created now : ℕ) (email : Text)
      (purpose : Purpose) (w : World) (code : Text)
      → All (λ o. o.created_at ≤ created) w.committed.otps
      → (send id digits checked expiry_from created email purpose w).0 ≡ ok code
      → now ≤ expiry_from + minutes 5
      → (attempt sha256 now email purpose code
          (send id digits checked expiry_from created email purpose w).1).0
        ≡ ok true
  code_gets_through id digits checked expiry_from created now email purpose w code older sent
        intime =
      elim (send_cases id digits checked expiry_from created email purpose w) [
        | inl (many, refused, same) ↦ absurd (ground arith)
        | inr (few, accepted, added) ↦
            let o = new_otp id digits expiry_from created email purpose in
            let mine = (is_for_iff (clean_email email) purpose o).1 (refl, refl) in
            let w' = (send id digits checked expiry_from created email purpose w).1 in
            let found : current email purpose w' ≡ some o =
              unfold current in
              rw added (
                latest-append (is_for (clean_email email) purpose) w.committed.otps o mine older) in
            (attempt-ok_iff sha256 now email purpose code w' o found).1
              (omega arith, refl, intime, ap (hash_otp_code sha256) (ground arith))
      ]
