-- ===== src/Orgs.antt =====
-- backend/app/services/auth_service.py: the organizations that users register in. The id and the hex
-- digits of a new UUID are arguments.
--
-- The table refuses a row whose name or slug another row has, or whose text is longer than its
-- column: the session raises an error of the database.
pub mod Slugs
pub mod Unique
use ai_inference_platform.Prelude.{
  ℕ, ◌+◌, Bool, true, false, not, ◌&&◌, ◌||◌, Option, none, some, List, [], ◌∷◌, ◌++◌, Text, text,
  text_eq, lower, lstrip, rstrip, strip_of, find, is_some, length, leb, ltb, ◌==◌, if◌then◌else◌,
}
use ai_inference_platform.Errors.{Result, ok, err, unhandled, integrity_error, data_error}
use ai_inference_platform.Models.{Db, Org}
use ai_inference_platform.Session.{World, Action, pure, raise, query, raise_if, change, ◌>>=◌, ◌>>◌}

-- `[a-z0-9]`
abbrev pub is_slug_char : ℕ → Bool
is_slug_char c = (leb b'a' c && leb c b'z') || (leb b'0' c && leb c b'9')

abbrev pub is_dash : ℕ → Bool
is_dash c = c == b'-'

-- `re.sub(r'[^a-z0-9]+', '-', t)`; the flag is set inside a run that has its dash.
unfoldable pub squeeze : Bool → Text → Text
squeeze in_run [] = []
squeeze in_run (c ∷ t) =
    let kept = c ∷ squeeze false t in
    let rest = squeeze true t in
    if is_slug_char c then kept else if in_run then rest else b'-' ∷ rest

unfoldable pub slugify : Text → Text
unfolding lower squeeze strip_of
slugify org_name = strip_of is_dash (squeeze false (lower org_name))

-- `if not slug: slug = f"org-{uuid.uuid4().hex[:8]}"`
unfoldable pub or_random_slug : (hex : Text) → Text → Text
or_random_slug hex [] = text "org-" ++ hex
or_random_slug hex (c ∷ t) = c ∷ t

unfoldable pub org_by_slug : Text → Db → Option Org
org_by_slug slug db = find (λ o. text_eq o.slug slug) db.orgs

unfoldable pub clashes : Org → List Org → Bool
clashes org orgs = is_some (find (λ o. text_eq o.slug org.slug || text_eq o.name org.name) orgs)

-- `db.add(org)` and `db.flush()`
unfoldable pub insert_org : Org → Action (Unit {0})
unfolding clashes
insert_org org = do
  raise_if (ltb 100 (length org.name) || ltb 50 (length org.slug)) (unhandled data_error)
  clash ← query (λ db. clashes org db.orgs)
  raise_if clash (unhandled integrity_error)
  change (λ db. record db { orgs = db.orgs ++ org ∷ [] })

-- A new organization with the columns' defaults.
abbrev pub new_org : (id : ℕ) → (name slug : Text) → Org
new_org id name slug = record {
  id = id;
  name = name;
  slug = slug;
  rate_limit_rpm = 60;
  rate_limit_burst = 10;
  is_active = true;
}

-- The organization found, or else the new one, and whether it is new.
unfoldable pub or_insert : Option Org → Org → Action (Org × Bool)
unfolding insert_org
or_insert (some org) new = pure (org, false)
or_insert none new = do insert_org new; pure (new, true)

unfoldable pub get_or_create_default_org : (id : ℕ) → Action Org
unfolding org_by_slug or_insert
get_or_create_default_org id = do
  found ← query (org_by_slug (text "default"))
  org ← or_insert found (new_org id (text "Default") (text "default"))
  pure org.0

unfoldable pub get_or_create_custom_org : (id : ℕ) → (hex org_name : Text) → Action (Org × Bool)
unfolding org_by_slug or_insert slugify or_random_slug
get_or_create_custom_org id hex org_name = do
  let slug = or_random_slug hex (slugify org_name)
  found ← query (org_by_slug slug)
  or_insert found (new_org id org_name slug)
