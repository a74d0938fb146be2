-- ===== src/Metrics.antt =====
-- backend/app/observability/metrics.py: one pass of `collect_periodic_metrics`, which sets the gauges
-- to what it reads of the database, of Redis and of the engine. How each of these answers is an
-- argument; the loop waits and logs around the pass, and it keeps the gauges.
pub mod Groups
pub mod Passes
pub mod Tenants
use ai_inference_platform.Prelude.{
  ℕ, zero, suc, ◌+◌, ◌-◌, ◌*◌, String, Bool, true, false, Option, none, some, List, [], ◌∷◌, ◌++◌,
  Text, text, text_eq, map, length, select, take, leb, ◌==◌, if◌then◌else◌,
}
use ai_inference_platform.Errors.{Result, ok, err, unhandled, type_error}
use ai_inference_platform.Models.{Db, User, UsageLog, Conversation}
use ai_inference_platform.Admin.Reports.{total}
use ai_inference_platform.RefreshTokens.{any}
use ai_inference_platform.Startup.Pull.{contains, models_to_pull}
use ai_inference_platform.Inference.{Engine}
use ai_inference_platform.Inference.Listing.{Name, Get, absent, null, named, list_ollama_models}
use ai_inference_platform.Metrics.Groups.{Group, group_by, distinct}

-- An integer: the overflow of a pool that is not full is below 0.
pub data ℤ : Type 0 where
  pos negsuc : ℕ → ℤ

-- A gauge with a label has a value for each label that has been set.
abbrev pub Labelled : Type 0 → Type 0
Labelled K = K → Option ℕ

pub record Gauges : Type 0 where
  pub db_pool_size : ℕ
  pub db_pool_checked_out : ℕ
  pub db_pool_overflow : ℤ
  pub db_up : ℕ
  pub total_registered_users : ℕ
  pub active_users_last_15m : ℕ
  pub daily_active_users : ℕ
  pub total_chats_created : ℕ
  pub tenant_chat_count : Labelled ℕ
  pub tenant_inference_count : Labelled ℕ
  pub tenant_token_count : Labelled ℕ
  pub redis_up : ℕ
  pub redis_memory_used : ℕ
  pub redis_keyspace_hits : ℕ
  pub redis_keyspace_misses : ℕ
  pub ollama_up : ℕ
  pub active_models_count : ℕ
  pub ollama_model_status : Labelled Text

-- `.labels(…).set(…)`
abbrev pub set_org : ℕ → ℕ → Labelled ℕ → Labelled ℕ
set_org org value gauge j = if j == org then some value else gauge j

abbrev pub set_model : Text → ℕ → Labelled Text → Labelled Text
set_model model value gauge j = if text_eq j model then some value else gauge j

-- The loop over the rows of a query, which sets a gauge for each organization.
unfoldable pub set_orgs : List (ℕ × ℕ) → Labelled ℕ → Labelled ℕ
set_orgs [] gauge = gauge
set_orgs ((org, value) ∷ rows) gauge = set_orgs rows (set_org org value gauge)

pub record Pool : Type 0 where
  pub size : ℕ
  pub checkedout : ℕ
  pub overflow : ℤ

-- A pool without these numbers raises, and the gauges stay.
unfoldable pub collect_pool : Option Pool → Gauges → Gauges
collect_pool none g = g
collect_pool (some pool) g = record g {
  db_pool_size = pool.size;
  db_pool_checked_out = pool.checkedout;
  db_pool_overflow = pool.overflow;
}

unfoldable pub collect_db : (answers : Bool) → Gauges → Gauges
collect_db true g = record g { db_up = 1 }
collect_db false g = record g { db_up = 0 }

-- `SELECT count(distinct id) FROM users WHERE last_login_at >= :cutoff`
abbrev pub since : ℕ → Option ℕ → Bool
since cutoff none = false
since cutoff (some t) = leb cutoff t

unfoldable pub active_since : (cutoff : ℕ) → Db → ℕ
active_since cutoff db =
    length
      (distinct (map (λ u. u.id) (select (λ (u : User). since cutoff u.last_login_at) db.users)))

-- `conversations JOIN users ON conversations.user_id = users.id`, as the organizations of its rows
unfoldable pub chat_orgs : List User → List Conversation → List ℕ
chat_orgs users [] = []
chat_orgs users (c ∷ cs) =
    map (λ u. u.org_id) (select (λ (u : User). u.id == c.user_id) users) ++ chat_orgs users cs

-- The six statements, each with the gauges that it sets.
module _ (now : ℕ) (db : Db) where
  abbrev set_registered : Gauges → Gauges
  set_registered g = record g { total_registered_users = length db.users }

  abbrev set_active : Gauges → Gauges
  set_active g = record g { active_users_last_15m = active_since (now - 15 * 60000000) db }

  abbrev set_daily : Gauges → Gauges
  set_daily g = record g { daily_active_users = active_since (now - 1440 * 60000000) db }

  abbrev set_chats : Gauges → Gauges
  set_chats g = record g { total_chats_created = length db.conversations }

  abbrev set_tenant_chats : Gauges → Gauges
  set_tenant_chats g = record g {
    tenant_chat_count =
        set_orgs
          (map (λ r. (r.key, length r.rows))
            (group_by (λ o. o) (chat_orgs db.users db.conversations)))
          g.tenant_chat_count;
  }

  -- the rows of the logs by organization, each with its number and its tokens
  abbrev set_tenant_usage : Gauges → Gauges
  set_tenant_usage g =
      let groups = group_by (λ (l : UsageLog). l.org_id) db.usage_logs in
      record g {
        tenant_inference_count =
            set_orgs (map (λ r. (r.key, length r.rows)) groups) g.tenant_inference_count;
        tenant_token_count =
            set_orgs (map (λ r. (r.key, total (λ l. l.total_tokens) r.rows)) groups)
              g.tenant_token_count;
      }

  abbrev pub statements : List (Gauges → Gauges)
  statements =
      set_registered ∷ set_active ∷ set_daily ∷ set_chats ∷ set_tenant_chats ∷ set_tenant_usage ∷ []

unfoldable pub run_all : List (Gauges → Gauges) → Gauges → Gauges
run_all [] g = g
run_all (f ∷ fs) g = run_all fs (f g)

-- The analytics: `done` statements are answered, and the next one raises, if there is one.
unfoldable pub collect_analytics : (done : ℕ) → (now : ℕ) → Db → Gauges → Gauges
unfolding run_all set_orgs active_since chat_orgs
collect_analytics done now db g = run_all (take done (statements now db)) g

-- What Redis answers to `ping`, and to `info` for its two sections: nothing where the call raises,
-- and no number where the key is missing.
pub record RedisInfo : Type 0 where
  pub ping : Bool
  pub used_memory : Option (Option ℕ)
  pub keyspace : Option (Option ℕ × Option ℕ)

abbrev pub or_zero : Option ℕ → ℕ
or_zero none = 0
or_zero (some n) = n

abbrev pub redis_down : Gauges → Gauges
redis_down g = record g { redis_up = 0 }

abbrev pub set_keyspace : Option (Option ℕ × Option ℕ) → Gauges → Gauges
set_keyspace none g = redis_down g
set_keyspace (some (hits, misses)) g = record g {
  redis_keyspace_hits = or_zero hits;
  redis_keyspace_misses = or_zero misses;
}

abbrev pub set_memory : Option (Option ℕ) → Option (Option ℕ × Option ℕ) → Gauges → Gauges
set_memory none keyspace g = redis_down g
set_memory (some used) keyspace g =
    set_keyspace keyspace (record g { redis_memory_used = or_zero used })

unfoldable pub collect_redis : RedisInfo → Gauges → Gauges
collect_redis r g =
    if r.ping then set_memory r.used_memory r.keyspace (record g { redis_up = 1 }) else redis_down g

-- `m.get("name", "")`
abbrev pub loaded_name : Name → Option Text
loaded_name absent = some []
loaded_name null = none
loaded_name (named t) = some t

-- `any(model_name in name for name in loaded_models)`; `in` raises on a null.
unfoldable pub is_loaded : Text → List (Option Text) → Result Bool
is_loaded model [] = ok false
is_loaded model (none ∷ names) = err (unhandled type_error)
is_loaded model (some name ∷ names) =
    let rest = is_loaded model names in if contains model name then ok true else rest

abbrev pub bit : Bool → ℕ
bit true = 1
bit false = 0

abbrev pub set_status : Text → ℕ → Gauges → Gauges
set_status model value g = record g {
  ollama_model_status = set_model model value g.ollama_model_status;
}

-- `except`: the gauges of the engine go down.
abbrev pub set_all_down : List Text → Gauges → Gauges
set_all_down [] g = g
set_all_down (model ∷ models) g = set_all_down models (set_status model 0 g)

abbrev pub ollama_down : Gauges → Gauges
ollama_down g = set_all_down models_to_pull (record g { ollama_up = 0; active_models_count = 0 })

abbrev pub next_model : Text → Result Bool → (Gauges → Gauges) → Gauges → Gauges
next_model model (err e) rest g = ollama_down g
next_model model (ok present) rest g = rest (set_status model (bit present) g)

unfoldable pub set_statuses : List Text → List (Option Text) → Gauges → Gauges
unfolding is_loaded
set_statuses [] names g = g
set_statuses (model ∷ models) names g =
    next_model model (is_loaded model names) (set_statuses models names) g

abbrev pub ollama_listed : List Name → Gauges → Gauges
ollama_listed models g = record g { ollama_up = 1; active_models_count = length models }

-- `loaded_models` is a set, and `set_order` the order in which the names of a set come.
unfoldable pub collect_models :
    (set_order : List (Option Text) → List (Option Text))
    → Engine
    → (get : String → Get) → Gauges
    → Gauges
unfolding set_statuses
collect_models set_order engine get g =
    let models = list_ollama_models engine get in
    set_statuses models_to_pull (set_order (map loaded_name models)) (ollama_listed models g)

-- How the surroundings answer in a pass. `analytics` is the number of statements answered.
pub record Answers : Type 0 where
  pub pool : Option Pool
  pub db_answers : Bool
  pub analytics : ℕ
  pub now : ℕ
  pub db : Db
  pub redis : RedisInfo
  pub get : String → Get

unfoldable pub collect_periodic_metrics :
    (set_order : List (Option Text) → List (Option Text)) → Engine → Answers → Gauges → Gauges
unfolding collect_pool collect_db collect_analytics collect_redis collect_models
collect_periodic_metrics set_order engine a g = collect_models set_order engine a.get (
    collect_redis a.redis
      (collect_analytics a.analytics a.now a.db (collect_db a.db_answers (collect_pool a.pool g))))
