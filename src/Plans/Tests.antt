-- ===== src/Plans/Tests.antt =====
-- Runs of the plan resolution of plans.rs at concrete inputs, over settings that are a list.
use sentinel_command.Prelude.{
  ℕ, ◌≡◌, refl, true, false, List, [], ◌∷◌, none, some, arith, if◌then◌else◌,
}
use sentinel_command.Prelude.Int.{pos}
use sentinel_command.Text.{Text, text_eq, codes}
use sentinel_command.Interfaces.{pair_eq}
use sentinel_command.Assoc.{Assoc}
use sentinel_command.Assoc
use sentinel_command.Assoc.Laws as AssocLaws
use sentinel_command.Plans.{
  Caches, Item, Settings, free_org, self_host, resolve_org_plan, fetch_live_plan_slug, cached_plan,
  non_empty_or_free, or_slug, throttle, prune_resolve_cache,
}
use sentinel_command.Plans.Entitlement.{
  first_plan, is_active, is_scheduled_end, fetch_live_plan_slug-first,
}
use sentinel_command.Plans.Throttle.{
  resolve, resolve_all, resolve_org_plan-asks_once, resolve_org_plan-keeps,
}
use sentinel_command.Prelude.{All}
use sentinel_command.Hls.Auth.{AuthState}
use sentinel_command.Hls.Auth
use sentinel_command.Plans.Cap.{Camera, CapOutcome, camera_ids, enforce_camera_cap}
use sentinel_command.Plans.Cap.Flags.{
  HasFlag, kept_ids, enforce_camera_cap-flags, enforce_camera_cap-again,
}
use sentinel_command.Plans.{Times, Others, effective_plan_for_caps, invalidate_effective_plan_cache}

abbrev table : Settings
table = record {
  Db = Assoc (Text × Text) Text;
  get = λ db org_id key default. elim (Assoc.get (org_id, key) db) [
    | none ↦ some (some default)
    | some value ↦ some (some value)
  ];
  set = λ db org_id key value. Assoc.insert (org_id, key) value db;
}

abbrev cold : Caches
cold = record { last_resolve_at = []; last_prune_at = none; effective = [] }

abbrev org_a : Text
org_a = codes "org_a"

-- A cancelled plan that still runs, before an active one.
abbrev items : List Item
items =
    record {
      status = some (codes "canceled");
      slug = some (codes "pro");
      period_end = some (pos 9);
    }
    ∷ record { status = some (codes "active"); slug = some (codes "pro_plus"); period_end = none }
    ∷ []

fetch_live_plan_slug-first_example :
    fetch_live_plan_slug (pos 5) (some items)
    ≡ some (
        or_slug
          (first_plan is_active items)
          (or_slug (first_plan (is_scheduled_end (pos 5)) items) free_org))
fetch_live_plan_slug-first_example = fetch_live_plan_slug-first (pos 5) items

asked_first : (resolve_org_plan table false cold [] org_a 7 (pos 5) (some items)).3 ≡ true
unfolding resolve_org_plan throttle prune_resolve_cache Assoc.get Assoc.retain fetch_live_plan_slug
asked_first = refl

resolve_org_plan-asks_once_example :
    (resolve_org_plan table false
      (resolve_all table false [] (resolve table false (org_a, 7, pos 5, some items) (cold, []))).0
      (resolve_all table false [] (resolve table false (org_a, 7, pos 5, some items) (cold, []))).1
      org_a
      50
      (pos 6)
      none).3
    ≡ false
resolve_org_plan-asks_once_example =
    resolve_org_plan-asks_once table false cold [] org_a 7 50 (pos 5) (pos 6) (some items) none []
      tt asked_first tt (omega arith)

resolve_org_plan-keeps_example :
    ((resolve_org_plan table false cold [] org_a 7 (pos 5) none).1 ≡ [])
    × ((resolve_org_plan table false cold [] org_a 7 (pos 5) none).2
        ≡ (if false then self_host else non_empty_or_free (cached_plan table false [] org_a)))
resolve_org_plan-keeps_example = resolve_org_plan-keeps table false cold [] org_a 7 (pos 5)

-- Six cameras on a plan of five, the first of them disabled before.
abbrev six_cameras : List Camera
six_cameras =
    record { camera_id = codes "a"; disabled_by_plan = some true }
    ∷ record { camera_id = codes "b"; disabled_by_plan = none }
    ∷ record { camera_id = codes "c"; disabled_by_plan = none }
    ∷ record { camera_id = codes "d"; disabled_by_plan = none }
    ∷ record { camera_id = codes "e"; disabled_by_plan = none }
    ∷ record { camera_id = codes "f"; disabled_by_plan = none }
    ∷ []

-- The clocks of a call at an instant.
abbrev at_instant : ℕ → Times
at_instant now = record {
  reads_at = now;
  resolves_at = now;
  wall = pos 5;
  grace_wall = pos 5;
  caches_at = now;
}

abbrev nobody : Others (Assoc (Text × Text) Text)
nobody = record { before = λ c. c; during = λ c. c; resolved = λ db. db; flagged = λ db. db }

-- The plan of an organisation with nothing in the settings while the billing service is down.
abbrev plan_at : Caches → ℕ → Text
plan_at c now =
    (effective_plan_for_caps table false (λ _. none) c [] org_a false (at_instant now) nobody
      none).2

abbrev capped_at :
    Caches
    → ℕ
    → List Camera
    → Caches × Assoc (Text × Text) Text × List Camera × AuthState × CapOutcome
capped_at c now cameras =
    enforce_camera_cap table false (λ _. none) (λ plan. plan) c [] org_a (at_instant now) nobody
      none cameras Auth.start

plan_is_free : plan_at cold 7 ≡ free_org
unfolding effective_plan_for_caps resolve_org_plan throttle prune_resolve_cache fetch_live_plan_slug
    non_empty_or_free Assoc.get Assoc.retain
plan_is_free = refl

-- The second call is throttled.
abbrev throttled : Caches
throttled = record {
  last_resolve_at = (org_a, 7) ∷ [];
  last_prune_at = some 7;
  effective = (org_a, (30_007, free_org)) ∷ [];
}

plan_stays : plan_at throttled 900 ≡ plan_at cold 7
unfolding effective_plan_for_caps resolve_org_plan throttle prune_resolve_cache fetch_live_plan_slug
    non_empty_or_free Assoc.get Assoc.retain
plan_stays = refl

enforce_camera_cap-flags_example :
    All (HasFlag (kept_ids (plan_at cold 7) six_cameras)) (capped_at cold 7 six_cameras).2
    × (camera_ids (capped_at cold 7 six_cameras).2 ≡ camera_ids six_cameras)
enforce_camera_cap-flags_example =
    enforce_camera_cap-flags table false (λ _. none) (λ plan. plan) org_a cold [] (at_instant 7)
      nobody none six_cameras Auth.start

enforce_camera_cap-again_example :
    ((capped_at throttled 900 (capped_at cold 7 six_cameras).2).2
      ≡ (capped_at cold 7 six_cameras).2)
    × ((capped_at throttled 900 (capped_at cold 7 six_cameras).2).3 ≡ Auth.start)
    × ((capped_at throttled 900 (capped_at cold 7 six_cameras).2).4.changed ≡ false)
enforce_camera_cap-again_example =
    enforce_camera_cap-again table false (λ _. none) (λ plan. plan) org_a cold throttled [] []
      (at_instant 7) (at_instant 900) nobody nobody none none six_cameras Auth.start Auth.start
      plan_stays

-- A webhook invalidates the plan while it is computed.
abbrev webhook : Others (Assoc (Text × Text) Text)
webhook = record nobody { during = invalidate_effective_plan_cache (some org_a) }

abbrev bought : Caches × Assoc (Text × Text) Text × Text
bought =
    effective_plan_for_caps table false (λ _. none) cold [] org_a false (at_instant 7) webhook
      (some items)
