-- ===== src/Startup/Loss.antt =====
-- What the migrations keep.
use ai_inference_platform.Prelude.{◌≡◌, refl, Bool, true, false, [], arith}
use ai_inference_platform.Models.{Db}
use ai_inference_platform.Startup.{Table, missing, outdated, current, Store, is_current, migrate}

never_current : (table : Table) → is_current false table ≡ false
unfolding is_current
never_current missing = refl
never_current outdated = refl
never_current current = refl

-- Where the rows of a result cannot be awaited, every start of the service whose drop statements get
-- through empties the tables of codes, conversations and messages, however current their columns
-- were; the other tables are as before.
pub migrate_loses_conversations :
    (t : Store)
    → (migrate false true true t).db ≡ record t.db { otps = []; conversations = []; messages = [] }
unfolding migrate
migrate_loses_conversations t = ground (
  arith,
  never_current t.schema.otps,
  never_current t.schema.conversations,
  never_current t.schema.chat_messages,
)

-- Where they could be awaited, a database whose tables are current would be left as it is.
migrate_keeps_current :
    (otps_drop chats_drop : Bool) (db : Db)
    → migrate true otps_drop chats_drop (record {
      schema = record { otps = current; conversations = current; chat_messages = current };
      db = db;
    })
      ≡ record {
        schema = record { otps = current; conversations = current; chat_messages = current };
        db = db;
      }
unfolding migrate
migrate_keeps_current otps_drop chats_drop db = refl
