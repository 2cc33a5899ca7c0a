-- ===== src/Plans/Cap.antt =====
-- backend-rs/src/plans.rs, `get_plan_limits` and `enforce_camera_cap`. The cameras of an
-- organisation are its rows in the order of the query, the update sets every row with the id, and
-- the queries succeed: a failed one ends the call where it stands.
pub mod Flags
use sentinel_command.Prelude.{
  ℕ, ◌≤◌, ◌≡◌, refl, sym, ap, ◌∙◌, Bool, true, false, not, ◌||◌, List, [], ◌∷◌, Option, none, some,
  length, take, drop, map, arith, Bool-cases, inl, inr, ◌⊎◌, All, if◌then◌else◌,
}
use sentinel_command.Interfaces.{◌==◌, ==-refl}
use sentinel_command.Text.{Text, text_eq, text_beq_iff, codes, is_empty}
use sentinel_command.Assoc.{member}
use sentinel_command.Prelude.Int.{ℤ}
use sentinel_command.Plans.{Caches, Item, Settings, Times, Others, effective_plan_for_caps}
use sentinel_command.Hls.Auth.{AuthState, invalidate_auth_cache}

pub record PlanLimits : Type 0 where
  pub max_cameras : ℕ
  pub max_nodes : ℕ
  pub max_seats : ℕ
  pub max_viewer_hours_per_month : ℕ
  pub max_sse_subscribers : ℕ
  pub log_retention_days : ℕ

abbrev pub limits : ℕ → ℕ → ℕ → ℕ → ℕ → ℕ → PlanLimits
limits cameras nodes seats hours subscribers days = record {
  max_cameras = cameras;
  max_nodes = nodes;
  max_seats = seats;
  max_viewer_hours_per_month = hours;
  max_sse_subscribers = subscribers;
  log_retention_days = days;
}

unfoldable pub get_plan_limits : Text → PlanLimits
get_plan_limits plan =
    if plan == codes "pro"
    then limits 25 10 10 300 30 90
    else (if plan == codes "pro_plus"
        then limits 200 999 20 1500 100 365
        else (if plan == codes "self_host"
            then limits 999 999 1 999_999 50 365
            else limits 5 2 2 30 10 30))

pub record Camera : Type 0 where
  pub camera_id : Text
  pub disabled_by_plan : Option Bool

-- `currently.unwrap_or(false)`.
abbrev pub or_false : Option Bool → Bool
or_false none = false
or_false (some disabled) = disabled

abbrev pub camera_ids : List Camera → List Text
camera_ids cameras = map (λ camera. camera.camera_id) cameras

abbrev pub should_disable : List Text → Text → Bool
should_disable keep_ids camera_id = not (member camera_id keep_ids)

-- The rows whose flag is not what it should be.
unfoldable pub flips : List Text → List Camera → List (Text × Bool)
flips keep_ids [] = []
flips keep_ids (camera ∷ cameras) =
    let rest = flips keep_ids cameras in
    let disable = should_disable keep_ids camera.camera_id in
    elim (or_false camera.disabled_by_plan) [
      | true ↦ if disable then rest else (camera.camera_id, disable) ∷ rest
      | false ↦ if disable then (camera.camera_id, disable) ∷ rest else rest
    ]

-- `UPDATE cameras SET disabled_by_plan = ... WHERE camera_id = ...`.
abbrev pub set_flag : Text × Bool → Camera → Camera
set_flag (camera_id, disable) camera =
    if camera.camera_id == camera_id
    then record camera { disabled_by_plan = some disable }
    else camera

unfoldable pub write_flips : List (Text × Bool) → List Camera → List Camera
write_flips [] cameras = cameras
write_flips (flip ∷ rest) cameras = write_flips rest (map (set_flag flip) cameras)

pub record CapOutcome : Type 0 where
  pub plan : Text
  pub max_cameras : ℕ
  pub enabled : List Text
  pub disabled : List Text
  pub changed : Bool

abbrev pub enabled_ids : List Text → List Text → List Text
enabled_ids keep_ids [] = []
enabled_ids keep_ids (camera_id ∷ ids) =
    if should_disable keep_ids camera_id
    then enabled_ids keep_ids ids
    else camera_id ∷ enabled_ids keep_ids ids

-- `enforce_camera_cap` from the cap on. `wire` is `wire_plan_slug`, the label alone.
unfoldable pub cap_cameras :
    (Text → Text) → Text → List Camera → AuthState → List Camera × AuthState × CapOutcome
unfolding get_plan_limits flips write_flips
cap_cameras wire plan cameras auth =
    let cap = (get_plan_limits plan).max_cameras in
    let keep_ids = take cap (camera_ids cameras) in
    let flip_to = flips keep_ids cameras in
    let changed = not (is_empty flip_to) in
    (
      write_flips flip_to cameras,
      if changed then invalidate_auth_cache auth else auth,
      record {
        plan = wire plan;
        max_cameras = cap;
        enabled = enabled_ids keep_ids (camera_ids cameras);
        disabled = drop cap (camera_ids cameras);
        changed = changed;
      },
    )

module _ (s : Settings) (local_auth : Bool) (parse_past_due_at : Text → Option ℤ) where
  open s use {Db}

  -- `enforce_camera_cap` whole: the plan is read with the cache bypassed. The new caches and table,
  -- the rows, the authorisation caches and the outcome.
  unfoldable pub enforce_camera_cap :
      (Text → Text)
      → Caches
      → Db
      → Text
      → Times
      → Others Db
      → Option (List Item)
      → List Camera
      → AuthState
      → Caches × Db × List Camera × AuthState × CapOutcome
  unfolding effective_plan_for_caps cap_cameras
  enforce_camera_cap wire c db org_id t others answer cameras auth =
      let plan =
        effective_plan_for_caps s local_auth parse_past_due_at c db org_id false t others answer in
      let capped = cap_cameras wire plan.2 cameras auth in
      (plan.0, plan.1, capped.0, capped.1, capped.2)
