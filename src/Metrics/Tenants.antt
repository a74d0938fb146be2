-- ===== src/Metrics/Tenants.antt =====
-- backend/app/observability/metrics.py: the gauges of the tenants and of the users after a pass.
use ai_inference_platform.Prelude.{
  ℕ, ◌-◌, ◌*◌, ◌≤◌, ◌≡◌, sym, refl, ap, ◌∙◌, Bool, true, Option, none, some, List, [], ◌∷◌, map,
  length, length-select-le, select, arith, ◌==◌, if◌then◌else◌, Bool-cases, inl, inr, Text,
}
use ai_inference_platform.Models.{Db, User, UsageLog}
use ai_inference_platform.Admin.Reports.{total}
use ai_inference_platform.RefreshTokens.{any}
use ai_inference_platform.Metrics.{
  Gauges, Labelled, set_org, set_orgs, active_since, since, or_zero, Answers,
  collect_periodic_metrics,
}
use ai_inference_platform.Inference.{Engine}
use ai_inference_platform.Metrics.Passes.{Analytics, pass-analytics}
use ai_inference_platform.Metrics.Groups.{
  Group, group_by, distinct, has, has-distinct, total-distinct, total_cong_in, length-total,
  length-distinct_mono, length-distinct-le,
}

-- A gauge that is set for each key of a list, to a value that depends on the key.
set_orgs-map :
    (f : ℕ → ℕ) (ks : List ℕ) (gauge : Labelled ℕ) (j : ℕ)
    → set_orgs (map {B = ℕ × ℕ} (λ k. (k, f k)) ks) gauge j
      ≡ (if has j ks then some (f j) else gauge j)
unfolding set_orgs any
set_orgs-map f [] gauge j = refl
set_orgs-map f (k ∷ ks) gauge j =
    set_orgs-map f ks (set_org k (f k) gauge) j ∙ elim (Bool-cases (j == k)) [
      | inl same ↦ let same' : j ≡ k = ground (arith, same) in rw same' (ground arith)
      | inr other ↦ ground (arith, other)
    ]

module _ {A : Type 0} (key : A → ℕ) (h : List A → ℕ) where
  abbrev rows_of : List A → ℕ → List A
  rows_of rows k = select (λ r. key r == k) rows

  group_values :
      (rows : List A) (ks : List ℕ)
      → map {B = ℕ × ℕ}
          (λ (g : Group A). (g.key, h g.rows))
          (map (λ k. record { key = k; rows = rows_of rows k }) ks)
        ≡ map {B = ℕ × ℕ} (λ k. (k, h (rows_of rows k))) ks
  group_values rows [] = refl
  group_values rows (k ∷ ks) =
      ap (λ (t : List (ℕ × ℕ)). (k, h (rows_of rows k)) ∷ t) (group_values rows ks)

  -- After a query by groups, the gauge of a key with rows has the value of its rows, and the gauge of
  -- a key without rows is what it was.
  set_orgs-group_by :
      (rows : List A) (gauge : Labelled ℕ) (j : ℕ)
      → set_orgs (map {B = ℕ × ℕ} (λ (g : Group A). (g.key, h g.rows)) (group_by key rows)) gauge j
        ≡ (if has j (map key rows) then some (h (rows_of rows j)) else gauge j)
  unfolding group_by
  set_orgs-group_by rows gauge j =
      let values = set_orgs-map (λ k. h (rows_of rows k)) (distinct (map key rows)) gauge j in
      rw (group_values rows (distinct (map key rows)), values, has-distinct j (map key rows)) refl

abbrev pub org_ids : Db → List ℕ
org_ids db = map (λ (l : UsageLog). l.org_id) db.usage_logs

abbrev pub logs_of : Db → ℕ → List UsageLog
logs_of db org = select (λ l. l.org_id == org) db.usage_logs

abbrev pub tokens_in : List UsageLog → ℕ
tokens_in = total (λ l. l.total_tokens)

-- After a pass in which the database answers every statement, the gauges of an organization with
-- rows in the usage log have the number of its rows and their tokens, and those of another
-- organization are what they were; over the organizations of the log, they add up to all rows and to
-- all tokens.
pub tenant_usage_adds_up :
    (set_order : List (Option Text) → List (Option Text)) (engine : Engine) (a : Answers)
    (g : Gauges)
    → a.analytics ≡ 6
    → let g' = collect_periodic_metrics set_order engine a g in
      ((org : ℕ)
        → (g'.tenant_inference_count org ≡ (
            if has org (org_ids a.db)
            then some (length (logs_of a.db org))
            else g.tenant_inference_count org))
          × (g'.tenant_token_count org ≡ (
              if has org (org_ids a.db)
              then some (tokens_in (logs_of a.db org))
              else g.tenant_token_count org)))
      × (total (λ org. or_zero (g'.tenant_inference_count org)) (distinct (org_ids a.db))
          ≡ length a.db.usage_logs)
      × (total (λ org. or_zero (g'.tenant_token_count org)) (distinct (org_ids a.db))
          ≡ tokens_in a.db.usage_logs)
tenant_usage_adds_up set_order engine a g six =
    let db = a.db in
    let g' = collect_periodic_metrics set_order engine a g in
    let e = pass-analytics set_order engine a g six in
    let key : UsageLog → ℕ = λ l. l.org_id in
    let inferences : (org : ℕ)
        → g'.tenant_inference_count org ≡ (
            if has org (org_ids db)
            then some (length (logs_of db org))
            else g.tenant_inference_count org) =
      λ org.
        ap (λ (t : Analytics). t.2 org) e
        ∙ set_orgs-group_by key length db.usage_logs g.tenant_inference_count org in
    let tokens : (org : ℕ)
        → g'.tenant_token_count org ≡ (
            if has org (org_ids db)
            then some (tokens_in (logs_of db org))
            else g.tenant_token_count org) =
      λ org.
        ap (λ (t : Analytics). t.3 org) e
        ∙ set_orgs-group_by key tokens_in db.usage_logs g.tenant_token_count org in
    (
      λ org. (inferences org, tokens org),
      total_cong_in (λ org. or_zero (g'.tenant_inference_count org))
            (λ org. total (λ (l : UsageLog). 1) (logs_of db org)) (distinct (org_ids db))
            (λ org p.
              let q = sym (has-distinct org (org_ids db)) ∙ p in
              rw (inferences org, q) (sym (length-total (logs_of db org))))
          ∙ (total-distinct key (λ l. 1) db.usage_logs ∙ length-total db.usage_logs),
      total_cong_in (λ org. or_zero (g'.tenant_token_count org)) (λ org. tokens_in (logs_of db org))
            (distinct (org_ids db))
            (λ org p. let q = sym (has-distinct org (org_ids db)) ∙ p in rw (tokens org, q) refl)
          ∙ total-distinct key (λ l. l.total_tokens) db.usage_logs,
    )

abbrev active_ids : (cutoff : ℕ) → List User → List ℕ
active_ids cutoff us = map (λ u. u.id) (select (λ (u : User). since cutoff u.last_login_at) us)

since_mono :
    (early late : ℕ) (o : Option ℕ) → early ≤ late → since late o ≡ true → since early o ≡ true
since_mono early late none le h = h
since_mono early late (some t) le h = ground (arith, le, h)

has-active_ids :
    (early late : ℕ) (us : List User) (n : ℕ)
    → early ≤ late
    → has n (active_ids late us) ≡ true
    → has n (active_ids early us) ≡ true
unfolding any
has-active_ids early late [] n le h = h
has-active_ids early late (u ∷ us) n le h = elim (Bool-cases (since late u.last_login_at)) [
  | inl recent ↦
      let recent' = since_mono early late u.last_login_at le recent in
      rw recent' (ground (arith, rw recent at h, has-active_ids early late us n le))
  | inr older ↦ elim (Bool-cases (since early u.last_login_at)) [
    | inl kept ↦ rw kept (ground (arith, rw older at h, has-active_ids early late us n le))
    | inr left ↦ rw left (has-active_ids early late us n le (rw older at h))
  ]
]

active_since_mono :
    (early late : ℕ) (db : Db) → early ≤ late → active_since late db ≤ active_since early db
unfolding active_since
active_since_mono early late db le =
    length-distinct_mono (active_ids late db.users) (active_ids early db.users)
      (λ n h. has-active_ids early late db.users n le h)

length-map : {A B : Type 0} (f : A → B) (xs : List A) → length (map f xs) ≡ length xs
length-map f [] = refl
length-map f (x ∷ xs) = omega (arith, length-map f xs)

active_since-le : (cutoff : ℕ) (db : Db) → active_since cutoff db ≤ length db.users
unfolding active_since
active_since-le cutoff db =
    let p : User → Bool = λ (u : User). since cutoff u.last_login_at in
    omega (
      arith,
      length-distinct-le (active_ids cutoff db.users),
      length-map (λ (u : User). u.id) (select p db.users),
      length-select-le p db.users,
    )

-- After a pass in which the database answers every statement, the users of the last fifteen minutes
-- are at most those of the last day, and these at most all users.
pub active_users_ordered :
    (set_order : List (Option Text) → List (Option Text)) (engine : Engine) (a : Answers)
    (g : Gauges)
    → a.analytics ≡ 6
    → let g' = collect_periodic_metrics set_order engine a g in
      (g'.active_users_last_15m ≤ g'.daily_active_users)
      × (g'.daily_active_users ≤ g'.total_registered_users)
active_users_ordered set_order engine a g six =
    let counts = ap (λ (t : Analytics). t.0) (pass-analytics set_order engine a g six) in
    let registered = ap (λ (c : ℕ × ℕ × ℕ × ℕ). c.0) counts in
    let quarter = ap (λ (c : ℕ × ℕ × ℕ × ℕ). c.1) counts in
    let day = ap (λ (c : ℕ × ℕ × ℕ × ℕ). c.2) counts in
    (
      rw (quarter, day)
          (active_since_mono (a.now - 1440 * 60000000) (a.now - 15 * 60000000) a.db (omega arith)),
      rw (day, registered) (active_since-le (a.now - 1440 * 60000000) a.db),
    )
