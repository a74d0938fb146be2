-- ===== src/Tests/Tokens.antt =====
-- Services for the examples: a password is its own hash, and a token spells its claims as numbers.
use ai_inference_platform.Prelude.{
  ℕ, zero, suc, ◌≡◌, refl, ap, Option, none, some, [], ◌∷◌, ◌++◌, Text, text_eq, text_eq_iff,
  starts_with, arith, take, drop, length, ltb, if◌then◌else◌,
}
use ai_inference_platform.Ids.{UuidText, canonical, respelt, malformed}
use ai_inference_platform.Models.{Role, platform_admin, org_admin, operator, viewer, custom}
use ai_inference_platform.Auth.{Payload, Services, IsSound, Settings}

-- A way to write values in front of a text, and to read them back.
pub record Coder (A : Type 0) : Type 0 where
  pub put : A → Text → Text
  pub get : Text → Option (A × Text)
  pub get-put : (a : A) (rest : Text) → get (put a rest) ≡ some (a, rest)

pub take-append : (t rest : Text) → take (length t) (t ++ rest) ≡ t
take-append [] rest = refl
take-append (c ∷ t) rest = ap (λ (s : Text). c ∷ s) (take-append t rest)

pub drop-append : (t rest : Text) → drop (length t) (t ++ rest) ≡ rest
drop-append [] rest = refl
drop-append (c ∷ t) rest = drop-append t rest

abbrev get_number : Text → Option (ℕ × Text)
get_number [] = none
get_number (n ∷ rest) = some (n, rest)

abbrev number : Coder ℕ
number = record { put = λ n rest. n ∷ rest; get = get_number; get-put = λ n rest. refl }

abbrev get_string : Text → Option (Text × Text)
get_string [] = none
get_string (n ∷ s) = some (take n s, drop n s)

abbrev string : Coder Text
string = record {
  put = λ t rest. length t ∷ t ++ rest;
  get = get_string;
  get-put = λ t rest. rw (take-append t rest, drop-append t rest) refl;
}

module _ {A B : Type 0} where
  abbrev joined : A → Option (B × Text) → Option ((A × B) × Text)
  joined a none = none
  joined a (some (b, rest)) = some ((a, b), rest)

  abbrev after : (Text → Option (B × Text)) → Option (A × Text) → Option ((A × B) × Text)
  after get none = none
  after get (some (a, rest)) = joined a (get rest)

  abbrev pair : Coder A → Coder B → Coder (A × B)
  pair c d = record {
    put = λ x rest. c.put x.0 (d.put x.1 rest);
    get = λ t. after d.get (c.get t);
    get-put = λ x rest. rw (c.get-put x.0 (d.put x.1 rest), d.get-put x.1 rest) refl;
  }

  abbrev mapped : (B → A) → Option (B × Text) → Option (A × Text)
  mapped back none = none
  mapped back (some (b, rest)) = some (back b, rest)

  -- A coder of other values that stand for these.
  abbrev along : (to : A → B) (back : B → A) → ((a : A) → back (to a) ≡ a) → Coder B → Coder A
  along to back back-to c = record {
    put = λ a rest. c.put (to a) rest;
    get = λ t. mapped back (c.get t);
    get-put = λ a rest. rw (c.get-put (to a) rest, back-to a) refl;
  }

module _ {A : Type 0} (c : Coder A) where
  abbrev put_option : Option A → Text → Text
  put_option none rest = 0 ∷ rest
  put_option (some a) rest = 1 ∷ c.put a rest

  abbrev get_option : Text → Option (Option A × Text)
  get_option [] = none
  get_option (zero ∷ rest) = some (none, rest)
  get_option (suc n ∷ rest) = mapped some (c.get rest)

  pub get-put_option :
      (o : Option A) (rest : Text) → get_option (put_option o rest) ≡ some (o, rest)
  get-put_option none rest = refl
  get-put_option (some a) rest = rw (c.get-put a rest) refl

  abbrev option : Coder (Option A)
  option = record { put = put_option; get = get_option; get-put = get-put_option }

-- A UUID is its number, if it has one, and its spelling.
abbrev of_uuid : UuidText → Option ℕ × Option Text
of_uuid (canonical n) = (some n, none)
of_uuid (respelt n t) = (some n, some t)
of_uuid (malformed t) = (none, some t)

abbrev to_uuid : Option ℕ × Option Text → UuidText
to_uuid (some n, none) = canonical n
to_uuid (some n, some t) = respelt n t
to_uuid (none, some t) = malformed t
to_uuid (none, none) = malformed []

pub to_uuid-of_uuid : (u : UuidText) → to_uuid (of_uuid u) ≡ u
to_uuid-of_uuid (canonical n) = refl
to_uuid-of_uuid (respelt n t) = refl
to_uuid-of_uuid (malformed t) = refl

abbrev of_role : Role → ℕ × Text
of_role platform_admin = (0, [])
of_role org_admin = (1, [])
of_role operator = (2, [])
of_role viewer = (3, [])
of_role (custom t) = (4, t)

abbrev role_at : ℕ → Text → Role
role_at zero t = platform_admin
role_at (suc zero) t = org_admin
role_at (suc (suc zero)) t = operator
role_at (suc (suc (suc zero))) t = viewer
role_at _ t = custom t

abbrev to_role : ℕ × Text → Role
to_role x = role_at x.0 x.1

pub to_role-of_role : (r : Role) → to_role (of_role r) ≡ r
to_role-of_role platform_admin = refl
to_role-of_role org_admin = refl
to_role-of_role operator = refl
to_role-of_role viewer = refl
to_role-of_role (custom t) = refl

abbrev uuid : Coder UuidText
uuid = along of_uuid to_uuid to_uuid-of_uuid (pair (option number) (option string))

abbrev role : Coder Role
role = along of_role to_role to_role-of_role (pair number string)

abbrev Fields : Type 0
Fields =
    Option UuidText
    × (Option Text
        × (Option Text
            × (Option UuidText
                × (Option Role
                    × (Option UuidText × (Option Text × (Option Text × (Option Text × ℕ))))))))

abbrev of_payload : Payload → Fields
of_payload p = (
  p.sub,
  (p.email, (p.name, (p.org_id, (p.role, (p.jti, (p.type, (p.purpose, (p.google_id, p.exp)))))))),
)

abbrev to_payload : Fields → Payload
to_payload (sub, (email, (name, (org_id, (role, (jti, (type, (purpose, (google_id, exp))))))))) =
    record {
      sub = sub;
      email = email;
      name = name;
      org_id = org_id;
      role = role;
      jti = jti;
      type = type;
      purpose = purpose;
      google_id = google_id;
      exp = exp;
    }

abbrev payload : Coder Payload
payload =
    along of_payload to_payload (λ p. refl)
      (pair (option uuid) (
        pair (option string) (
          pair (option string) (
            pair (option uuid) (
              pair (option role) (
                pair (option uuid)
                  (pair (option string) (pair (option string) (pair (option string) number)))))))))

-- The claims of a token that has not expired.
abbrev unexpired : ℕ → Option (Payload × Text) → Option Payload
unexpired now none = none
unexpired now (some (p, rest)) = if ltb p.exp now then none else some p

abbrev decode : ℕ → Text → Option Payload
decode now [] = none
decode now (c ∷ t) = unexpired now (payload.get t)

abbrev pub services : Services
services = record {
  sha256 = λ t. t;
  hashpw = λ salt password. password;
  checkpw = text_eq;
  encode = λ p. 0 ∷ payload.put p [];
  decode = decode;
}

pub services-IsSound : IsSound services
services-IsSound = record {
  checkpw-hashpw = λ salt password. ground (arith, text_eq_iff password password);
  decode-encode = λ now p. rw (payload.get-put p []) refl;
  encode-ne-api_key = λ p. unfold starts_with in refl;
  encode-ne-nil = λ p. ground arith;
}

abbrev pub settings : Settings
settings = record { access_token_ttl_seconds = 3600; refresh_token_ttl_seconds = 604800 }
