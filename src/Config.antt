-- ===== src/Config.antt =====
-- backend/app/config.py: the validators of the settings. What pydantic reads of the environment is
-- given as texts.
pub mod Validators
use ai_inference_platform.Prelude.{
  ℕ, String, Bool, true, false, List, [], ◌∷◌, ◌++◌, Text, length, ltb, ◌==◌, if◌then◌else◌, strip,
}

-- `v.split(",")`
abbrev pub cons_first : ℕ → List Text → List Text
cons_first c [] = (c ∷ []) ∷ []
cons_first c (w ∷ ws) = (c ∷ w) ∷ ws

unfoldable pub split : Text → List Text
split [] = [] ∷ []
split (c ∷ t) = let rest = split t in if c == b',' then [] ∷ rest else cons_first c rest

abbrev pub cons_kept : Text → List Text → List Text
cons_kept [] rest = rest
cons_kept (c ∷ t) rest = (c ∷ t) ∷ rest

-- `[o.strip() for o in … if o.strip()]`
unfoldable pub kept : List Text → List Text
unfolding strip
kept [] = []
kept (o ∷ os) = cons_kept (strip o) (kept os)

-- The setting is one text or a list of texts.
pub data Origins : Type 0 where
  joined : Text → Origins
  listed : List Text → Origins

unfoldable pub parse_allowed_origins : Origins → List Text
unfolding split kept
parse_allowed_origins (joined v) = kept (split v)
parse_allowed_origins (listed v) = v

pub record Environment : Type 0 where
  pub database_url : Text
  pub redis_url : Text
  pub secret_key : Text
  pub allowed_origins : Origins

pub record Config : Type 0 where
  pub database_url : Text
  pub redis_url : Text
  pub secret_key : Text
  pub allowed_origins : List Text

-- The settings, or the errors of a validator: a key that is too short, or the names of what is missing.
pub data Loaded : Type 0 where
  short_key : Loaded
  missing : List String → Loaded
  accepted : Config → Loaded

unfoldable pub secret_key_min_length : Text → Bool
secret_key_min_length v = if ltb (length v) 32 then false else true

abbrev pub unless_given : String → Text → List String
unless_given name [] = name ∷ []
unless_given name (c ∷ t) = []

abbrev pub or_missing : List String → Config → Loaded
or_missing [] s = accepted s
or_missing (name ∷ names) s = missing (name ∷ names)

unfoldable pub validate_required_secrets : Config → Loaded
validate_required_secrets s =
    or_missing
      (unless_given "DATABASE_URL" s.database_url
        ++ (unless_given "REDIS_URL" s.redis_url ++ unless_given "SECRET_KEY" s.secret_key))
      s

-- The validators of the fields come first.
unfoldable pub get_settings : Environment → Loaded
unfolding parse_allowed_origins secret_key_min_length validate_required_secrets
get_settings env =
    if secret_key_min_length env.secret_key
    then validate_required_secrets (record {
      database_url = env.database_url;
      redis_url = env.redis_url;
      secret_key = env.secret_key;
      allowed_origins = parse_allowed_origins env.allowed_origins;
    })
    else short_key
