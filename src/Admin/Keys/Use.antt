-- ===== src/Admin/Keys/Use.antt =====
-- What the use of a key depends on after it was made, renewed or revoked.
use ai_inference_platform.Prelude.{
  ℕ, ◌≡◌, ◌≢◌, refl, Bool, true, false, not, ◌&&◌, none, some, List, [], ◌∷◌, arith, Text, find,
  select, All, text_eq, text_eq_iff, update_where, ◌==◌, ==_iff, Bool-cases, inl, inr,
}
use ai_inference_platform.Errors.{ok, Result-cases}
use ai_inference_platform.Ids.{UuidText, parse_uuid}
use ai_inference_platform.Models.{ApiKey, Role}
use ai_inference_platform.Session.{World}
use ai_inference_platform.Auth.{Services}
use ai_inference_platform.ApiKeys.{lookup_api_key}
use ai_inference_platform.CurrentUser.{CurrentUser, require_role}
use ai_inference_platform.Admin.Keys.{
  revoke_api_key, visible_key, key_roles, without_key, creator_scope, is_visible,
}
use ai_inference_platform.Admin.{org_scope}

require_role-same :
    (roles : List Role) (user : CurrentUser) (w : World) → (require_role roles user w).1 ≡ w
unfolding require_role
require_role-same roles user w = ground arith

-- Hashes and ids are unique.
abbrev pub Apart : ApiKey → ApiKey → Type 0
Apart k l = (l.key_hash ≢ k.key_hash) × (l.id ≢ k.id)

abbrev pub IsKeyTable : List ApiKey → Type 0
IsKeyTable [] = Unit
IsKeyTable (k ∷ ks) = All (Apart k) ks × IsKeyTable ks

abbrev opens : Text → ApiKey → Bool
opens key_hash k = text_eq k.key_hash key_hash && k.is_active

abbrev deactivate : ApiKey → ApiKey
deactivate k = record k { is_active = false }

find-All :
    (p : ApiKey → Bool) (P : ApiKey → Type 0) (ks : List ApiKey) (key : ApiKey)
    → find p ks ≡ some key
    → All P ks
    → P key
find-All p P [] key found h = cc
find-All p P (k ∷ ks) key found h = elim (Bool-cases (p k)) [
  | inl here ↦ let same : k ≡ key = ground (arith, found, here) in rw same at h.0
  | inr there ↦ find-All p P ks key (ground (arith, found, there)) h.1
]

closed-Apart :
    (key : ApiKey) (ks : List ApiKey)
    → All (Apart key) ks
    → (find (opens key.key_hash) (update_where (λ k. k.id == key.id) deactivate ks) ≡ none)
      × (find (opens key.key_hash) (select (λ k. not (k.id == key.id)) ks) ≡ none)
closed-Apart key [] h = (refl, refl)
closed-Apart key (k ∷ ks) h =
    let rest = closed-Apart key ks h.1 in
    let hashes = text_eq_iff k.key_hash key.key_hash in
    (ground (arith, h.0, rest, hashes), ground (arith, h.0, rest, hashes))

closed-found :
    (p : ApiKey → Bool) (key : ApiKey) (ks : List ApiKey)
    → find p ks ≡ some key
    → IsKeyTable ks
    → (find (opens key.key_hash) (update_where (λ k. k.id == key.id) deactivate ks) ≡ none)
      × (find (opens key.key_hash) (select (λ k. not (k.id == key.id)) ks) ≡ none)
closed-found p key [] found table = (refl, refl)
closed-found p key (k ∷ ks) found table = elim (Bool-cases (p k)) [
  | inl here ↦
      let same : k ≡ key = ground (arith, found, here) in
      let self : (key.id == key.id) ≡ true = (==_iff key.id key.id).1 refl in
      let rest = closed-Apart key ks (rw same at table.0) in
      rw (same, self) (ground (arith, rest), ground (arith, rest))
  | inr there ↦
      let found' : find p ks ≡ some key = ground (arith, found, there) in
      let apart = find-All p (Apart k) ks key found' table.0 in
      let rest = closed-found p key ks found' table.1 in
      let hashes = text_eq_iff k.key_hash key.key_hash in
      (ground (arith, apart, rest, hashes), ground (arith, apart, rest, hashes))
]

visible_key-same :
    (key_id : UuidText) (user : CurrentUser) (w : World) → (visible_key key_id user w).1 ≡ w
unfolding visible_key require_role
visible_key-same key_id user w = ground arith

visible_key-found :
    (key_id : UuidText) (user : CurrentUser) (w : World) (key : ApiKey)
    → (visible_key key_id user w).0 ≡ ok key
    → (p : ApiKey → Bool) × (find p w.db.api_keys ≡ some key)
unfolding visible_key
visible_key-found key_id user w key got =
    let same = require_role-same key_roles user w in
    elim (Result-cases (parse_uuid key_id)) [
      | inl (e, failed) ↦ ground (arith, failed, got, same)
      | inr (id, parsed) ↦ elim (Result-cases (org_scope user)) [
        | inl (e, failed) ↦ ground (arith, parsed, failed, got, same)
        | inr (org, of_org) ↦ elim (Result-cases (creator_scope user)) [
          | inl (e, failed) ↦ ground (arith, parsed, of_org, failed, got, same)
          | inr (creator, of_creator) ↦ (
            λ k. k.id == id && is_visible org creator k,
            ground (arith, parsed, of_org, of_creator, got, same),
          )
        ]
      ]
    ]

-- A key that a request has revoked opens nothing any more, nor does a revoked one that a request has
-- deleted.
pub revoked_key_closed :
    (s : Services) (later : ℕ) (key_id : UuidText) (user : CurrentUser) (w : World) (key : ApiKey)
    (raw : Text)
    → IsKeyTable w.db.api_keys
    → (visible_key key_id user w).0 ≡ ok key
    → s.sha256 raw ≡ key.key_hash
    → (lookup_api_key s later raw (revoke_api_key key_id user w).1).0 ≡ ok none
unfolding revoke_api_key lookup_api_key without_key
revoked_key_closed s later key_id user w key raw table got hashed =
    let (p, found) = visible_key-found key_id user w key got in
    let closed = closed-found p key w.db.api_keys found table in
    let same = visible_key-same key_id user w in
    elim (Bool-cases key.is_active) [
      | inl active ↦ ground (arith, got, same, closed, hashed, active)
      | inr revoked ↦ ground (arith, got, same, closed, hashed, revoked)
    ]
