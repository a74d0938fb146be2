-- ===== src/Ids.antt =====
-- UUIDs as the code meets them: a value of a UUID column is a number, and a string is the canonical
-- spelling of one, another spelling that `uuid.UUID` accepts, or none.

use ai_inference_platform.Prelude.{
  ℕ, ◌≡◌, ◌↔◌, Bool, true, false, ◌&&◌, [], arith, Text, text_eq, text_eq_iff, ◌==◌,
}
use ai_inference_platform.Errors.{Result, ok, err, unhandled, value_error}

pub data UuidText : Type 0 where
  canonical : ℕ → UuidText
  respelt : ℕ → Text → UuidText
  malformed : Text → UuidText

-- `uuid.UUID(s)`
unfoldable pub parse_uuid : UuidText → Result ℕ
parse_uuid (canonical n) = ok n
parse_uuid (respelt n t) = ok n
parse_uuid (malformed t) = err (unhandled value_error)

-- The comparison of the strings.
unfoldable pub uuid_text_eq : UuidText → UuidText → Bool
uuid_text_eq (canonical m) (canonical n) = m == n
uuid_text_eq (respelt m s) (respelt n t) = m == n && text_eq s t
uuid_text_eq (malformed s) (malformed t) = text_eq s t
uuid_text_eq _ _ = false

-- `not s`
unfoldable pub is_blank : UuidText → Bool
is_blank (malformed []) = true
is_blank _ = false

pub uuid_text_eq_iff : (s t : UuidText) → (uuid_text_eq s t ≡ true) ↔ (s ≡ t)
unfolding uuid_text_eq
uuid_text_eq_iff (canonical m) (canonical n) = ground arith
uuid_text_eq_iff (respelt m s) (respelt n t) = ground (arith, text_eq_iff s t)
uuid_text_eq_iff (malformed s) (malformed t) = ground (arith, text_eq_iff s t)
uuid_text_eq_iff _ _ = ground arith
