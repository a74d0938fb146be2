-- ===== src/Session.antt =====
-- backend/app/database.py: a request's database session, and what else a request changes.
--
-- An action runs on the world of one request and may raise; what it did before it raised stays in
-- the world. `db` is what the session sees, with its own pending changes; `committed` is what other
-- sessions see. Redis and the outgoing mail take no part in the transaction. Requests are taken one
-- at a time: no other session commits while one runs. Otp.Races lets sessions run at the same time.

use ai_inference_platform.Prelude.{ℕ, Bool, Option, none, some, List, [], Text, if◌then◌else◌}
use ai_inference_platform.Errors.{Error, Result, ok, err}
use ai_inference_platform.Ids.{UuidText}
use ai_inference_platform.Models.{Db, Purpose, empty_db}

-- The keys `refresh_token:{user_id}:{jti}` of Redis, with the time at which each expires.
pub record RefreshKey : Type 0 where
  pub user_id : UuidText
  pub jti : UuidText
  pub expires_at : ℕ

-- A message with a code, handed to the mail service.
pub record Mail : Type 0 where
  pub to : Text
  pub purpose : Purpose
  pub code : Text

pub record World : Type 0 where
  pub committed : Db
  pub db : Db
  pub redis : List RefreshKey
  pub outbox : List Mail

abbrev pub empty_world : World
empty_world = record { committed = empty_db; db = empty_db; redis = []; outbox = [] }

abbrev pub Action : Type 0 → Type 0
Action A = World → Result A × World

module _ {A : Type 0} where
  abbrev pub pure : A → Action A
  pure a w = (ok a, w)

  abbrev pub raise : Error → Action A
  raise e w = (err e, w)

  abbrev pub lift : Result A → Action A
  lift r w = (r, w)

  -- a query of the session's database
  abbrev pub query : (Db → A) → Action A
  query f w = (ok (f w.db), w)

infixl 5 ◌>>=◌ ◌>>◌
abbrev pub ◌>>=◌ : {A B : Type 0} → Action A → (A → Action B) → Action B
◌>>=◌ m f w = let (r, w') = m w in elim r [ ok a ↦ f a w' | err e ↦ (err e, w') ]

abbrev pub ◌>>◌ : {A B : Type 0} → Action A → Action B → Action B
m >> k = m >>= λ _. k

abbrev pub raise_if : Bool → Error → Action (Unit {0})
raise_if c e w = (if c then err e else ok tt, w)

-- `if x is None: raise e`
abbrev pub or_raise : {A : Type 0} → Option A → Error → Action A
or_raise none e = raise e
or_raise (some a) e = pure a

-- a change that the session flushes
abbrev pub change : (Db → Db) → Action (Unit {0})
change f w = (ok tt, record w { db = f w.db })

-- `await db.commit()`
abbrev pub commit : Action (Unit {0})
commit w = (ok tt, record w { committed = w.db })

abbrev pub finish : {A : Type 0} → Result A → World → Result A × World
finish (ok a) w = (ok a, record w { committed = w.db })
finish (err e) w = (err e, record w { db = w.committed })

-- `get_db`: a session begins at what is committed; it commits when the handler returns, and rolls
-- back when the handler raises.
unfoldable pub with_db : {A : Type 0} → Action A → Action A
with_db m w = let (r, w') = m (record w { db = w.committed }) in finish r w'
