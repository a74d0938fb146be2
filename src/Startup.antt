-- ===== src/Startup.antt =====
-- backend/app/main.py: what `lifespan` does to the database before the service takes requests, and
-- how it waits when the service goes down. Whether the rows that SQLAlchemy's `all()` returns can be
-- awaited is an argument, and so is whether the statements that drop tables get through.
pub mod Loss
pub mod Seeding
pub mod Drain
pub mod Pull
use ai_inference_platform.Prelude.{
  ℕ, Bool, true, false, not, ◌||◌, ◌&&◌, Option, none, some, [], Text, text, if◌then◌else◌,
}
use ai_inference_platform.Errors.{
  Error, Result, ok, err, unhandled, type_error, programming_error, connection_error,
}
use ai_inference_platform.Models.{Db, User, Org, platform_admin, local}
use ai_inference_platform.Session.{World, Action, pure, query, commit, ◌>>=◌, ◌>>◌}
use ai_inference_platform.Orgs.{get_or_create_default_org}
use ai_inference_platform.Auth.{Services, hash_password, user_by_email}
use ai_inference_platform.AuthRouter.Register.{insert_user}

-- A table is missing, or lacks the column that the probe reads, or has it.
pub data Table : Type 0 where
  missing outdated current : Table

pub record Schema : Type 0 where
  pub otps : Table
  pub conversations : Table
  pub chat_messages : Table

-- `res = await conn.execute(text("SELECT …"))` and `await res.all()`
unfoldable pub read_column : (awaitable : Bool) → Table → Result (Unit {0})
read_column awaitable missing = err (unhandled programming_error)
read_column awaitable outdated = err (unhandled programming_error)
read_column false current = err (unhandled type_error)
read_column true current = ok tt

-- The `try` around it.
unfoldable pub is_current : (awaitable : Bool) → Table → Bool
unfolding read_column
is_current awaitable table = elim (read_column awaitable table) [ ok done ↦ true | err e ↦ false ]

-- The three tables and the rows of the database.
pub record Store : Type 0 where
  pub schema : Schema
  pub db : Db

unfoldable pub drop_otps : Store → Store
drop_otps t = record { schema = record t.schema { otps = missing }; db = record t.db { otps = [] } }

unfoldable pub drop_conversations : Store → Store
drop_conversations t = record {
  schema = record t.schema { conversations = missing; chat_messages = missing };
  db = record t.db { conversations = []; messages = [] };
}

-- `Base.metadata.create_all` creates a table that is missing, and leaves the others alone.
abbrev pub after_create_all : Table → Table
after_create_all missing = current
after_create_all outdated = outdated
after_create_all current = current

abbrev pub create_all : Store → Store
create_all t = record t {
  schema = record {
    otps = after_create_all t.schema.otps;
    conversations = after_create_all t.schema.conversations;
    chat_messages = after_create_all t.schema.chat_messages;
  };
}

-- The migrations. A transaction whose drop fails does nothing; the exception is logged.
unfoldable pub migrate : (awaitable otps_drop chats_drop : Bool) → Store → Store
unfolding is_current drop_otps drop_conversations
migrate awaitable otps_drop chats_drop t =
    let schema_ok = is_current awaitable t.schema.otps in
    let t' = if not schema_ok && otps_drop then drop_otps t else t in
    let conversations_ok = is_current awaitable t'.schema.conversations in
    let chat_messages_ok = is_current awaitable t'.schema.chat_messages in
    let outdated_chats = not conversations_ok || not chat_messages_ok in
    create_all (if outdated_chats && chats_drop then drop_conversations t' else t')

pub record SuperAdmin : Type 0 where
  pub email : Text
  pub password : Text

module _ (s : Services) where
  unfoldable pub admin_user : (id : ℕ) → (salt : Text) → SuperAdmin → Org → User
  admin_user id salt admin org = record {
    id = id;
    org_id = org.id;
    name = text "Super Admin";
    email = admin.email;
    password_hash = some (hash_password s salt admin.password);
    google_id = none;
    profile_picture = none;
    auth_provider = local;
    role = platform_admin;
    is_active = true;
    is_verified = true;
    password_set = true;
    last_login_at = none;
  }

  -- The body of the `try`.
  unfoldable pub add_super_admin :
      (id org_id : ℕ) → (salt : Text) → SuperAdmin → Option User → Action (Unit {0})
  add_super_admin id org_id salt admin (some user) = pure tt
  add_super_admin id org_id salt admin none = do
    org ← get_or_create_default_org org_id
    insert_user (admin_user id salt admin org)
    commit

  unfoldable pub try_seeding : (id org_id : ℕ) → (salt : Text) → SuperAdmin → Action (Unit {0})
  unfolding add_super_admin
  try_seeding id org_id salt admin = do
    existing ← query (user_by_email admin.email)
    add_super_admin id org_id salt admin existing

  -- A session that is closed without a commit leaves nothing; an exception is logged.
  unfoldable pub seed_super_admin : (id org_id : ℕ) → (salt : Text) → SuperAdmin → World → World
  seed_super_admin id org_id salt admin w =
      let begun = record w { db = w.committed } in
      let w' = (try_seeding id org_id salt admin begun).1 in record w' { db = w'.committed }

  -- `lifespan` up to its `yield`: Redis has to answer.
  unfoldable pub start_up :
      (awaitable otps_drop chats_drop redis_up : Bool)
      → (id org_id : ℕ) → (salt : Text) → SuperAdmin
      → Schema
      → World
      → Result (Unit {0}) × (Schema × World)
  start_up awaitable otps_drop chats_drop redis_up id org_id salt admin schema w =
      let t =
        migrate awaitable otps_drop chats_drop (record { schema = schema; db = w.committed }) in
      let w' = seed_super_admin id org_id salt admin (record w { committed = t.db }) in
      (if redis_up then ok tt else err (unhandled connection_error), (t.schema, w'))
