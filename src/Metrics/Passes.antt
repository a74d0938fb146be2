-- ===== src/Metrics/Passes.antt =====
-- backend/app/observability/metrics.py: what a pass of the metrics leaves of the gauges that the
-- analytics set.
use ai_inference_platform.Prelude.{
  ℕ, ◌-◌, ◌*◌, ◌≡◌, refl, ap, ◌∙◌, Bool, true, false, Option, none, some, List, [], ◌∷◌, map,
  length, Bool-cases, Option-cases, inl, inr, String, Text,
}
use ai_inference_platform.Errors.{Result-cases}
use ai_inference_platform.Models.{Db, UsageLog}
use ai_inference_platform.Admin.Reports.{total}
use ai_inference_platform.Metrics.{
  Gauges, Labelled, set_orgs, active_since, chat_orgs, run_all, collect_analytics, loaded_name,
  ollama_listed, collect_pool, collect_db, collect_redis, collect_models, set_statuses, is_loaded,
  Answers, collect_periodic_metrics, RedisInfo, Pool,
}
use ai_inference_platform.Startup.Pull.{models_to_pull}
use ai_inference_platform.Inference.{Engine}
use ai_inference_platform.Inference.Listing.{Get, list_ollama_models}
use ai_inference_platform.Metrics.Groups.{group_by}

-- What the analytics set.
abbrev pub Analytics : Type 0
Analytics = (ℕ × ℕ × ℕ × ℕ) × Labelled ℕ × Labelled ℕ × Labelled ℕ

abbrev pub analytics_of : Gauges → Analytics
analytics_of g = (
  (g.total_registered_users, g.active_users_last_15m, g.daily_active_users, g.total_chats_created),
  g.tenant_chat_count,
  g.tenant_inference_count,
  g.tenant_token_count,
)

set_statuses-analytics :
    (models : List Text) (names : List (Option Text)) (g : Gauges)
    → analytics_of (set_statuses models names g) ≡ analytics_of g
unfolding set_statuses
set_statuses-analytics [] names g = refl
set_statuses-analytics (model ∷ models) names g = elim (Result-cases (is_loaded model names)) [
  | inl (e, failed) ↦ rw failed refl
  | inr (present, found) ↦ rw found (set_statuses-analytics models names _)
]

collect_models-analytics :
    (set_order : List (Option Text) → List (Option Text)) (engine : Engine) (get : String → Get)
    (g : Gauges)
    → analytics_of (collect_models set_order engine get g) ≡ analytics_of g
unfolding collect_models
collect_models-analytics set_order engine get g =
    let models = list_ollama_models engine get in
    set_statuses-analytics models_to_pull (set_order (map loaded_name models))
      (ollama_listed models g)

collect_redis-analytics :
    (r : RedisInfo) (g : Gauges) → analytics_of (collect_redis r g) ≡ analytics_of g
unfolding collect_redis
collect_redis-analytics r g = elim (Bool-cases r.ping) [
  | inr down ↦ rw down refl
  | inl up ↦ rw up (elim (Option-cases r.used_memory) [
    | inl failed ↦ rw failed refl
    | inr (used, memory) ↦ rw memory (elim (Option-cases r.keyspace) [
      | inl failed ↦ rw failed refl
      | inr (keys, known) ↦ rw known refl
    ])
  ])
]

before_analytics :
    (answers : Bool) (pool : Option Pool) (g : Gauges)
    → analytics_of (collect_db answers (collect_pool pool g)) ≡ analytics_of g
unfolding collect_db collect_pool
before_analytics true none g = refl
before_analytics true (some pool) g = refl
before_analytics false none g = refl
before_analytics false (some pool) g = refl

abbrev pub six_statements : (now : ℕ) → Db → Analytics → Analytics
six_statements now db (counts, chats, inferences, tokens) = (
  (
    length db.users,
    active_since (now - 15 * 60000000) db,
    active_since (now - 1440 * 60000000) db,
    length db.conversations,
  ),
  set_orgs
      (map (λ r. (r.key, length r.rows)) (group_by (λ o. o) (chat_orgs db.users db.conversations)))
      chats,
  set_orgs (map (λ r. (r.key, length r.rows)) (group_by (λ (l : UsageLog). l.org_id) db.usage_logs))
      inferences,
  set_orgs
      (map (λ r. (r.key, total (λ (l : UsageLog). l.total_tokens) r.rows))
        (group_by (λ (l : UsageLog). l.org_id) db.usage_logs))
      tokens,
)

after_six :
    (now : ℕ) (db : Db) (g : Gauges)
    → analytics_of (collect_analytics 6 now db g) ≡ six_statements now db (analytics_of g)
unfolding collect_analytics run_all
after_six now db g = refl

-- A pass with all six statements answered.
pub pass-analytics :
    (set_order : List (Option Text) → List (Option Text)) (engine : Engine) (a : Answers)
    (g : Gauges)
    → a.analytics ≡ 6
    → analytics_of (collect_periodic_metrics set_order engine a g)
      ≡ six_statements a.now a.db (analytics_of g)
unfolding collect_periodic_metrics
pass-analytics set_order engine a g six =
    let before = collect_db a.db_answers (collect_pool a.pool g) in
    let after = collect_analytics a.analytics a.now a.db before in
    collect_models-analytics set_order engine a.get (collect_redis a.redis after)
    ∙ (collect_redis-analytics a.redis after
        ∙ (ap (λ (n : ℕ). analytics_of (collect_analytics n a.now a.db before)) six
            ∙ (after_six a.now a.db before
                ∙ ap (six_statements a.now a.db) (before_analytics a.db_answers a.pool g))))
