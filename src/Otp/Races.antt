-- ===== src/Otp/Races.antt =====
-- backend/app/services/otp_service.py: `store_otp` in sessions that run at the same time. A session
-- reads the committed rows for its check, and its own row is there for others once it commits; between
-- the two, other sessions do the same.
pub mod Limit
use ai_inference_platform.Prelude.{
  ℕ, zero, suc, ◌+◌, ◌≤◌, ◌≡◌, ◌∙◌, ◌⊎◌, inl, inr, refl, Bool, true, false, ◌&&◌, Option, none,
  some, List, [], ◌∷◌, ◌++◌, length, length-append, length-select-le, select, select-append, All,
  arith, Text, leb, ◌==◌, if◌then◌else◌, Bool-cases, Option-cases,
}
use ai_inference_platform.Models.{Otp, Purpose}
use ai_inference_platform.Otp.{minutes, is_for, recent}
use ai_inference_platform.RefreshTokens.{any}
use ai_inference_platform.Session.{World}
use ai_inference_platform.Otp.Requests.{
  send, send_cases, new_otp, window, window-le_recent, is_for_iff,
}

-- The committed rows, and the rows of the sessions between their check and their commit.
pub record Race : Type 0 where
  pub otps : List Otp
  pub pending : List Otp

-- A session makes its check, with the row that it is to store, or the session at a place commits, or
-- is rolled back.
pub data Event : Type 0 where
  begins : (checked : ℕ) → Otp → Event
  commits : (place : ℕ) → Event
  rolls_back : (place : ℕ) → Event

abbrev pub with_first : Otp → Option (Otp × List Otp) → Option (Otp × List Otp)
with_first o none = none
with_first o (some (p, rest)) = some (p, o ∷ rest)

unfoldable pub pick : ℕ → List Otp → Option (Otp × List Otp)
pick n [] = none
pick zero (o ∷ os) = some (o, os)
pick (suc n) (o ∷ os) = with_first o (pick n os)

abbrev pub is_stored : ℕ → List Otp → Bool
is_stored id otps = any (λ r. r.id == id) otps

-- The id is the primary key: a row whose id is stored already is refused, and the session is rolled
-- back.
abbrev pub committed : Option (Otp × List Otp) → Race → Race
committed none s = s
committed (some (o, rest)) s =
    if is_stored o.id s.otps
    then record s { pending = rest }
    else record { otps = s.otps ++ o ∷ []; pending = rest }

abbrev pub dropped : Option (Otp × List Otp) → Race → Race
dropped none s = s
dropped (some (o, rest)) s = record s { pending = rest }

-- A session with three recent rows before it is refused.
unfoldable pub step : Event → Race → Race
unfolding pick
step (begins checked o) s =
    if leb 3 (length (recent o.email o.purpose checked s.otps))
    then s
    else record s { pending = o ∷ s.pending }
step (commits place) s = committed (pick place s.pending) s
step (rolls_back place) s = dropped (pick place s.pending) s

unfoldable pub run : List Event → Race → Race
unfolding step
run [] s = s
run (e ∷ es) s = run es (step e s)

-- At most so many sessions are between their check and their commit, all the time; and no clock goes
-- back between the check and the making of the row.
abbrev pub IsFair : Event → Type 0
IsFair (begins checked o) = checked ≤ o.created_at
IsFair (commits place) = Unit
IsFair (rolls_back place) = Unit

unfoldable pub AreFew : ℕ → List Event → Race → Type 0
unfolding step
AreFew k [] s = length s.pending ≤ k
AreFew k (e ∷ es) s = (length s.pending ≤ k) × IsFair e × AreFew k es (step e s)

module _ (email : Text) (purpose : Purpose) (from : ℕ) where
  abbrev is_in : Otp → Bool
  is_in o = is_for email purpose o && leb from o.created_at && leb o.created_at (from + minutes 15)

  abbrev held : List Otp → ℕ
  held os = length (window email purpose from os)

  held-cons : (o : Otp) (os : List Otp) → held (o ∷ os) ≡ (if is_in o then 1 else 0) + held os
  unfolding window
  held-cons o os = ground arith

  held-append :
      (o : Otp) (os : List Otp) → held (os ++ o ∷ []) ≡ (if is_in o then 1 else 0) + held os
  unfolding window
  held-append o os = rw select-append (rw length-append (ground arith))

  held-le : (os : List Otp) → held os ≤ length os
  unfolding window
  held-le os = length-select-le is_in os

  pick-held :
      (n : ℕ) (os : List Otp) (o : Otp) (rest : List Otp)
      → pick n os ≡ some (o, rest)
      → held os ≡ (if is_in o then 1 else 0) + held rest
  unfolding pick
  pick-held n [] o rest picked = absurd (ground (arith, picked))
  pick-held zero (p ∷ os) o rest picked = ground (arith, picked, held-cons p os)
  pick-held (suc n) (p ∷ os) o rest picked = elim (Option-cases (pick n os)) [
    | inl missing ↦ absurd (ground (arith, picked, missing))
    | inr ((q, others), found) ↦
        ground
          (arith, picked, found, pick-held n os q others found, held-cons p os, held-cons p others)
  ]

  -- Up to two rows; or the rows and the sessions that are to add to them are few.
  abbrev Holds : ℕ → Race → Type 0
  Holds k s = (held s.otps ≤ 2) ⊎ (held s.otps + held s.pending ≤ 2 + k)

  -- A session that passes its check for a row of the window finds at most two in it.
  begins-held :
      (checked : ℕ) (o : Otp) (otps : List Otp)
      → checked ≤ o.created_at
      → is_in o ≡ true
      → length (recent o.email o.purpose checked otps) ≤ 2
      → held otps ≤ 2
  begins-held checked o otps fair inside few =
      let same = (is_for_iff email purpose o).0 (ground (arith, inside)) in
      let few' : length (recent email purpose checked otps) ≤ 2 = rw (same.0, same.1) at few in
      let small = window-le_recent email purpose from checked otps (ground (arith, inside, fair)) in
      omega (arith, few', small)

  begins-Holds :
      (k checked : ℕ) (o : Otp) (s : Race)
      → checked ≤ o.created_at
      → Holds k s
      → Holds k (step (begins checked o) s)
  unfolding step
  begins-Holds k checked o s fair h =
      elim (Bool-cases (leb 3 (length (recent o.email o.purpose checked s.otps)))) [
        | inl refused ↦ rw refused h
        | inr passed ↦ rw passed (elim (Bool-cases (is_in o)) [
          | inl inside ↦ inl (begins-held checked o s.otps fair inside (ground (arith, passed)))
          | inr outside ↦ elim h [
            | inl few ↦ inl few
            | inr bounded ↦ inr (ground (arith, bounded, outside, held-cons o s.pending))
          ]
        ])
      ]

  commits-Holds :
      (k place : ℕ) (s : Race) → length s.pending ≤ k → Holds k s → Holds k (step (commits place) s)
  unfolding step
  commits-Holds k place s few h = elim (Option-cases (pick place s.pending)) [
    | inl missing ↦ rw missing h
    | inr ((o, rest), found) ↦
        let before = pick-held place s.pending o rest found in
        let after = held-append o s.otps in
        let most = held-le s.pending in
        rw found (elim (Bool-cases (is_stored o.id s.otps)) [
          | inl refused ↦ rw refused (elim h [
            | inl small ↦ inl small
            | inr bounded ↦ inr (ground (arith, bounded, before))
          ])
          | inr new ↦ rw new (elim (Bool-cases (is_in o)) [
            | inr outside ↦ elim h [
              | inl small ↦ inl (ground (arith, small, outside, after))
              | inr bounded ↦ inr (ground (arith, bounded, outside, before, after))
            ]
            | inl inside ↦ elim h [
              | inl small ↦ inr (ground (arith, small, inside, before, after, most, few))
              | inr bounded ↦ inr (ground (arith, bounded, inside, before, after))
            ]
          ])
        ])
  ]

  rolls_back-Holds : (k place : ℕ) (s : Race) → Holds k s → Holds k (step (rolls_back place) s)
  unfolding step
  rolls_back-Holds k place s h = elim (Option-cases (pick place s.pending)) [
    | inl missing ↦ rw missing h
    | inr ((o, rest), found) ↦
        let before = pick-held place s.pending o rest found in
        rw found
          (elim h [ inl small ↦ inl small | inr bounded ↦ inr (ground (arith, bounded, before)) ])
  ]

  run-Holds : (k : ℕ) (es : List Event) (s : Race) → AreFew k es s → Holds k s → Holds k (run es s)
  unfolding run AreFew
  run-Holds k [] s few h = h
  run-Holds k (begins checked o ∷ es) s (few, fair, fews) h =
      run-Holds k es (step (begins checked o) s) fews (begins-Holds k checked o s fair h)
  run-Holds k (commits place ∷ es) s (few, fair, fews) h =
      run-Holds k es (step (commits place) s) fews (commits-Holds k place s few h)
  run-Holds k (rolls_back place ∷ es) s (few, fair, fews) h =
      run-Holds k es (step (rolls_back place) s) fews (rolls_back-Holds k place s h)

  -- However sessions that store codes interleave, at most k of them between check and commit at any
  -- time, no fifteen minutes hold more than 2 + k rows for an address and a purpose, if none did before.
  pub codes_in_a_race :
      (k : ℕ) (es : List Event) (otps : List Otp)
      → AreFew k es (record { otps = otps; pending = [] })
      → length (window email purpose from otps) ≤ 2 + k
      → length (window email purpose from (run es (record { otps = otps; pending = [] })).otps)
        ≤ 2 + k
  codes_in_a_race k es otps few before =
      elim (run-Holds k es (record { otps = otps; pending = [] }) few
        (inr (unfold window in ground (arith, before)))) [
          | inl small ↦ omega (arith, small)
          | inr bounded ↦ omega (arith, bounded)
        ]

-- A session that runs alone, with a new id, does what `store_otp` does.
send-run :
    (sha256 : Text → Text) (id : ℕ) (digits : List ℕ) (checked expiry_from created : ℕ)
    (email : Text) (purpose : Purpose) (w : World)
    → is_stored id w.committed.otps ≡ false
    → (send sha256 id digits checked expiry_from created email purpose w).1.committed.otps
      ≡ (run
          (begins checked (new_otp sha256 id digits expiry_from created email purpose)
            ∷ commits 0
            ∷ [])
          (record { otps = w.committed.otps; pending = [] })).otps
unfolding run step pick
send-run sha256 id digits checked expiry_from created email purpose w new =
    elim (send_cases sha256 id digits checked expiry_from created email purpose w) [
      | inl (many, refused, same) ↦ same ∙ ground (arith, many)
      | inr (few, accepted, added) ↦ added ∙ ground (arith, few, new)
    ]
