-- ===== src/Config/Validators.antt =====
-- backend/app/config.py: what the validators accept, and the list of origins as one text.
use ai_inference_platform.Prelude.{
  ◌≤◌, ◌≡◌, ◌≢◌, ◌↔◌, refl, ap, ◌∙◌, Bool, false, List, [], ◌∷◌, ◌++◌, Text, text, arith, All,
  length, ltb, ◌==◌, strip, Bool-cases, inl, inr,
}
use ai_inference_platform.RefreshTokens.{any}
use ai_inference_platform.Config.{
  split, cons_kept, kept, joined, parse_allowed_origins, Environment, Config, accepted, or_missing,
  unless_given, get_settings, validate_required_secrets, secret_key_min_length,
}

abbrev pub has_comma : Text → Bool
has_comma = any (λ c. c == b',')

-- An origin as the list has it: not empty, without blanks around it, and without a comma.
abbrev pub IsOrigin : Text → Type 0
IsOrigin o = (o ≢ []) × (strip o ≡ o) × (has_comma o ≡ false)

-- `", ".join(origins)`
unfoldable pub join : List Text → Text
join [] = []
join (o ∷ []) = o
join (o ∷ p ∷ os) = o ++ (text ", " ++ join (p ∷ os))

split-cons : (t : Text) → (w : Text) × (ws : List Text) × (split t ≡ w ∷ ws)
unfolding split
split-cons [] = ([], [], refl)
split-cons (c ∷ t) = elim (Bool-cases (c == b',')) [
  | inl comma ↦ ([], split t, rw comma refl)
  | inr other ↦ let (w, ws, e) = split-cons t in (c ∷ w, ws, rw (other, e) refl)
]

kept-blank : (t : Text) → kept (split (b' ' ∷ t)) ≡ kept (split t)
unfolding split kept strip
kept-blank t = let (w, ws, e) = split-cons t in rw e refl

split-origin : (o t : Text) → has_comma o ≡ false → split (o ++ b',' ∷ t) ≡ o ∷ split t
unfolding split any
split-origin [] t h = refl
split-origin (c ∷ o) t h = ground (arith, h, split-origin o t)

split-last : (o : Text) → has_comma o ≡ false → split o ≡ o ∷ []
unfolding split any
split-last [] h = refl
split-last (c ∷ o) h = ground (arith, h, split-last o)

cons_kept-origin : (o : Text) (os : List Text) → o ≢ [] → cons_kept o os ≡ o ∷ os
cons_kept-origin [] os h = absurd (h refl)
cons_kept-origin (c ∷ o) os h = refl

kept-origin : (o : Text) (os : List Text) → IsOrigin o → kept (o ∷ os) ≡ o ∷ kept os
unfolding kept
kept-origin o os (named, bare, whole) = rw bare (cons_kept-origin o (kept os) named)

kept-join : (os : List Text) → All IsOrigin os → kept (split (join os)) ≡ os
unfolding join
kept-join [] h = unfold split kept strip in refl
kept-join (o ∷ []) (is_origin, h) =
    rw (split-last o is_origin.2) (kept-origin o [] is_origin ∙ unfold kept in refl)
kept-join (o ∷ p ∷ os) (is_origin, h) = rw (split-origin o (b' ' ∷ join (p ∷ os)) is_origin.2) (
    kept-origin o (split (b' ' ∷ join (p ∷ os))) is_origin
    ∙ ap (λ (ps : List Text). o ∷ ps) (kept-blank (join (p ∷ os)) ∙ kept-join (p ∷ os) h))

-- Origins that are not empty, have no blanks around them and hold no comma are read back from the one
-- text that lists them with a comma and a blank between each two.
pub parse_allowed_origins-join :
    (os : List Text) → All IsOrigin os → parse_allowed_origins (joined (join os)) ≡ os
unfolding parse_allowed_origins
parse_allowed_origins-join os h = kept-join os h

given :
    (d r k : Text) (s : Config)
    → k ≢ []
    → d ≢ []
    → r ≢ []
    → or_missing
        (unless_given "DATABASE_URL" d
          ++ (unless_given "REDIS_URL" r ++ unless_given "SECRET_KEY" k))
        s
      ≡ accepted s
given [] r k s key database redis = absurd (database refl)
given (a ∷ d) [] k s key database redis = absurd (redis refl)
given (a ∷ d) (b ∷ r) [] s key database redis = absurd (key refl)
given (a ∷ d) (b ∷ r) (c ∷ k) s key database redis = refl

all_given :
    (d r k : Text) (s s' : Config)
    → or_missing
        (unless_given "DATABASE_URL" d
          ++ (unless_given "REDIS_URL" r ++ unless_given "SECRET_KEY" k))
        s
      ≡ accepted s'
    → (d ≢ []) × (r ≢ [])
all_given [] r k s s' e = absurd (ground (arith, e))
all_given (a ∷ d) [] k s s' e = absurd (ground (arith, e))
all_given (a ∷ d) (b ∷ r) k s s' e = (λ p. ground (arith, p), λ p. ground (arith, p))

-- The settings are accepted if and only if the secret key has at least 32 characters and the addresses
-- of the database and of Redis are not empty.
pub get_settings-accepts :
    (env : Environment)
    → ((s : Config) × (get_settings env ≡ accepted s))
      ↔ ((32 ≤ length env.secret_key) × (env.database_url ≢ []) × (env.redis_url ≢ []))
unfolding get_settings validate_required_secrets secret_key_min_length
get_settings-accepts env = elim (Bool-cases (ltb (length env.secret_key) 32)) [
  | inl short ↦ (λ h. absurd (ground (arith, short, h.1)), λ h. absurd (ground (arith, short, h.0)))
  | inr long ↦
      let s : Config = record {
        database_url = env.database_url;
        redis_url = env.redis_url;
        secret_key = env.secret_key;
        allowed_origins = parse_allowed_origins env.allowed_origins;
      } in
      (
        λ h.
            let both =
              all_given env.database_url env.redis_url env.secret_key s h.0 (rw long at h.1) in
            (ground (arith, long), both.0, both.1),
        λ h. (
          s,
          rw long (
              given env.database_url env.redis_url env.secret_key s
                (λ (e : env.secret_key ≡ []). absurd (omega (arith, h.0, ap length e))) h.1 h.2),
        ),
      )
]
