-- ===== src/Orgs/Slugs.antt =====
-- The slugs that `slugify` makes.
use ai_inference_platform.Prelude.{
  ℕ, ◌≡◌, refl, Bool, true, false, not, ◌⊎◌, inl, inr, ap, [], ◌∷◌, arith, Text, lower, lstrip,
  rstrip, cons_unless, if◌then◌else◌, Bool-cases,
}
use ai_inference_platform.Orgs.{is_slug_char, is_dash, squeeze, slugify}

-- Words of lower-case letters and digits, with single dashes between them. The flag says that a
-- word is open, so that a dash or the end may follow.
abbrev pub IsWords : Bool → Text → Type 0
IsWords open_word [] = open_word ≡ true
IsWords open_word (c ∷ t) =
    if is_slug_char c
    then IsWords true t
    else (is_dash c ≡ true) × (open_word ≡ true) × IsWords false t

-- A slug: no text, or words.
abbrev pub IsSlug : Text → Type 0
IsSlug t = (t ≡ []) ⊎ IsWords false t

IsWords-letter :
    (open_word : Bool) (c : ℕ) (t : Text)
    → is_slug_char c ≡ true
    → IsWords true t
    → IsWords open_word (cons_unless (is_dash c) c t)
IsWords-letter open_word c [] letter words = ground arith
IsWords-letter open_word c (d ∷ t) letter words = elim (Bool-cases (is_dash c)) [
  | inl dash ↦ absurd (ground arith)
  | inr other ↦ rw (other, letter) words
]

IsWords-dash : (t : Text) → IsSlug t → IsWords true (cons_unless true b'-' t)
IsWords-dash [] slug = refl
IsWords-dash (d ∷ t) (inl e) = cc
IsWords-dash (d ∷ t) (inr words) = (refl, refl, words)

mutual
  unfolding squeeze rstrip

  IsWords-after_word : (t : Text) → IsWords true (rstrip is_dash (squeeze false t))
  IsWords-after_word [] = refl
  IsWords-after_word (c ∷ t) = elim (Bool-cases (is_slug_char c)) [
    | inl letter ↦
        rw letter
          (IsWords-letter true c (rstrip is_dash (squeeze false t)) letter (IsWords-after_word t))
    | inr other ↦ rw other (IsWords-dash (rstrip is_dash (squeeze true t)) (IsSlug-after_dash t))
  ]

  IsSlug-after_dash : (t : Text) → IsSlug (rstrip is_dash (squeeze true t))
  IsSlug-after_dash [] = inl refl
  IsSlug-after_dash (c ∷ t) = elim (Bool-cases (is_slug_char c)) [
    | inl letter ↦ rw letter (
        inr
          (IsWords-letter false c (rstrip is_dash (squeeze false t)) letter (IsWords-after_word t)))
    | inr other ↦ rw other (IsSlug-after_dash t)
  ]

-- Inside a run no dash comes first.
lstrip-squeeze : (t : Text) → lstrip is_dash (squeeze true t) ≡ squeeze true t
unfolding squeeze lstrip
lstrip-squeeze [] = refl
lstrip-squeeze (c ∷ t) = ground (arith, lstrip-squeeze t)

IsSlug-of_any : (t : Text) → IsSlug (rstrip is_dash (lstrip is_dash (squeeze false t)))
unfolding squeeze lstrip rstrip
IsSlug-of_any [] = inl refl
IsSlug-of_any (c ∷ t) = elim (Bool-cases (is_slug_char c)) [
  | inl letter ↦
      let plain : is_dash c ≡ false = ground arith in
      rw (letter, plain)
        (inr
          (IsWords-letter false c (rstrip is_dash (squeeze false t)) letter (IsWords-after_word t)))
  | inr other ↦ rw (other, lstrip-squeeze t) (IsSlug-after_dash t)
]

-- Whatever the name of an organization, its slug is no text or words of lower-case letters and
-- digits with single dashes between them.
pub slugify-IsSlug : (org_name : Text) → IsSlug (slugify org_name)
unfolding slugify
slugify-IsSlug org_name = IsSlug-of_any (lower org_name)

lower_words : (b : Bool) (t : Text) → IsWords b t → lower t ≡ t
unfolding lower
lower_words b [] words = refl
lower_words b (c ∷ t) words = elim (Bool-cases (is_slug_char c)) [
  | inl letter ↦ ground (arith, lower_words true t (rw letter at words))
  | inr other ↦
      let w : (is_dash c ≡ true) × (b ≡ true) × IsWords false t = rw other at words in
      ground (arith, lower_words false t w.2)
]

squeeze_words : (b : Bool) (t : Text) → IsWords b t → squeeze (not b) t ≡ t
unfolding squeeze
squeeze_words b [] words = refl
squeeze_words b (c ∷ t) words = elim (Bool-cases (is_slug_char c)) [
  | inl letter ↦ rw letter (ap (◌∷◌ c) (squeeze_words true t (rw letter at words)))
  | inr other ↦
      let w : (is_dash c ≡ true) × (b ≡ true) × IsWords false t = rw other at words in
      ground (arith, squeeze_words false t w.2)
]

rstrip_words : (b : Bool) (t : Text) → IsWords b t → rstrip is_dash t ≡ t
unfolding rstrip
rstrip_words b [] words = refl
rstrip_words b (c ∷ []) words = ground arith
rstrip_words b (c ∷ d ∷ t) words = elim (Bool-cases (is_slug_char c)) [
  | inl letter ↦ rw (rstrip_words true (d ∷ t) (rw letter at words)) (ground arith)
  | inr other ↦
      let w : (is_dash c ≡ true) × (b ≡ true) × IsWords false (d ∷ t) = rw other at words in
      rw (rstrip_words false (d ∷ t) w.2) (ground arith)
]

lstrip_words : (t : Text) → IsWords false t → lstrip is_dash t ≡ t
unfolding lstrip
lstrip_words [] words = refl
lstrip_words (c ∷ t) words = ground arith

-- At the start of a text no run is open either.
squeeze_first : (t : Text) → IsWords false t → squeeze false t ≡ t
unfolding squeeze
squeeze_first [] words = refl
squeeze_first (c ∷ t) words = ground (arith, squeeze_words true t)

-- A text that is a slug already is its own slug.
pub slugify_slug : (t : Text) → IsSlug t → slugify t ≡ t
unfolding slugify
slugify_slug t (inl e) = rw e (unfold lower squeeze lstrip rstrip in refl)
slugify_slug t (inr words) =
    rw (lower_words false t words, squeeze_first t words, lstrip_words t words)
      (rstrip_words false t words)
