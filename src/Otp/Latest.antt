-- ===== src/Otp/Latest.antt =====
-- The newest row of a query under the changes that the service makes.
use mathlib.Core.Option
use ai_inference_platform.Prelude.{
  ℕ, ◌≤◌, ◌≡◌, refl, Bool, true, Option, none, some, List, [], ◌∷◌, ◌++◌, All, arith, update_where,
  ◌==◌, ltb, if◌then◌else◌, Bool-cases, inl, inr,
}
use ai_inference_platform.Models.{Otp}
use ai_inference_platform.Otp.{latest, newer}

-- The row with an id, changed.
abbrev pub change_at : ℕ → (Otp → Otp) → Otp → Otp
change_at id f o = if o.id == id then f o else o

module _ (p : Otp → Bool) (id : ℕ) (f : Otp → Otp) (keep : (o : Otp) → p (f o) ≡ p o)
    (same : (o : Otp) → (f o).created_at ≡ o.created_at) where
  created_at-change_at : (o : Otp) → (change_at id f o).created_at ≡ o.created_at
  created_at-change_at o = ground (arith, same o)

  newer-change_at :
      (o : Otp) (r : Option Otp)
      → newer (change_at id f o) (Option.map (change_at id f) r)
        ≡ Option.map (change_at id f) (newer o r)
  newer-change_at o none = refl
  newer-change_at o (some q) =
      rw (created_at-change_at o, created_at-change_at q)
        (elim (Bool-cases (ltb q.created_at o.created_at)) [ inl e ↦ rw e | inr e ↦ rw e ])

  -- A change that leaves alone what the query selects and orders by commutes with it.
  pub latest-update :
      (os : List Otp)
      → latest p (update_where (λ o. o.id == id) f os) ≡ Option.map (change_at id f) (latest p os)
  unfolding latest
  latest-update [] = refl
  latest-update (o ∷ os) = ground (arith, keep o, latest-update os, newer-change_at o (latest p os))

pub latest-update_self :
    (p : Otp → Bool) (f : Otp → Otp)
    → ((o : Otp) → p (f o) ≡ p o)
    → ((o : Otp) → (f o).created_at ≡ o.created_at)
    → (os : List Otp) (o : Otp) → latest p os ≡ some o
    → latest p (update_where (λ r. r.id == o.id) f os) ≡ some (f o)
latest-update_self p f keep same os o e = rw (latest-update p o.id f keep same os, e) (ground arith)

-- A row that is stored last and is no older than the others is the newest.
pub latest-append :
    (p : Otp → Bool) (os : List Otp) (o : Otp)
    → p o ≡ true
    → All (λ r. r.created_at ≤ o.created_at) os
    → latest p (os ++ o ∷ []) ≡ some o
unfolding latest
latest-append p [] o h older = ground arith
latest-append p (r ∷ os) o h older = ground (arith, latest-append p os o h older.1)
