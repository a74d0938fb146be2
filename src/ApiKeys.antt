-- ===== src/ApiKeys.antt =====
-- backend/app/services/auth_service.py: API keys, of which the table holds the hash. The hex digits
-- of `secrets.token_hex(24)` and the readings of the clock are arguments.
use ai_inference_platform.Prelude.{
  ℕ, Bool, false, ◌&&◌, Option, none, some, ◌++◌, Text, text, text_eq, update_where, find, take,
  ltb, ◌==◌, if◌then◌else◌,
}
use ai_inference_platform.Models.{Db, ApiKey}
use ai_inference_platform.Session.{Action, pure, query, change, ◌>>=◌, ◌>>◌}
use ai_inference_platform.Auth.{Services}

-- The key in plain text, its hash and its prefix.
unfoldable pub generate_api_key : Services → (hex : Text) → Text × Text × Text
generate_api_key s hex = let raw = text "sk-" ++ hex in (raw, s.sha256 raw, take 8 raw)

unfoldable pub has_expired : (now : ℕ) → ApiKey → Bool
has_expired now key = elim key.expires_at [ none ↦ false | some t ↦ ltb t now ]

-- The active row with a hash; hashes are unique.
unfoldable pub active_key : (key_hash : Text) → Db → Option ApiKey
active_key key_hash db = find (λ k. text_eq k.key_hash key_hash && k.is_active) db.api_keys

abbrev pub update_key : ℕ → (ApiKey → ApiKey) → Db → Db
update_key id f db = record db { api_keys = update_where (λ k. k.id == id) f db.api_keys }

unfoldable pub touch_key : (now : ℕ) → Option ApiKey → Action (Option ApiKey)
unfolding has_expired
touch_key now none = pure none
touch_key now (some key) = if has_expired now key then pure none else (do
  change (update_key key.id (λ k. record k { last_used_at = some now }))
  pure (some (record key { last_used_at = some now })))

unfoldable pub lookup_api_key : Services → (now : ℕ) → (raw_key : Text) → Action (Option ApiKey)
unfolding active_key touch_key
lookup_api_key s now raw_key = do key ← query (active_key (s.sha256 raw_key)); touch_key now key
