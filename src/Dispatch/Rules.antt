-- ===== src/Dispatch/Rules.antt =====
-- backend-rs/src/sentinel_dispatch.rs: what each gate asks, with the helpers of
-- backend-rs/src/api/sentinel_config.rs and backend-rs/src/license.rs that it calls.
use sentinel_command.Prelude.{
  ℕ, ◌+◌, ◌*◌, Bool, true, false, not, ◌&&◌, ◌||◌, List, [], ◌∷◌, Option, none, some, leb,
  if◌then◌else◌, keep, any, length,
}
use sentinel_command.Prelude.Int.{ℤ, pos, negsuc}
use sentinel_command.Interfaces.{◌==◌}
use sentinel_command.Text.{Text, text_eq, codes, is_empty, strip_prefix}
use sentinel_command.Assoc.{Assoc}
use sentinel_command.Assoc
use sentinel_command.Dispatch.Schedule.{Hours}

-- `KIND_TO_TRIGGER_FIELD`.
abbrev pub trigger_fields : Assoc Text Text
trigger_fields =
    (codes "motion", codes "motion_enabled")
    ∷ (codes "incident_created", codes "incident_opened_enabled")
    ∷ []

abbrev pub trigger_type_for : Text → Text
trigger_type_for field =
    if field == codes "motion_enabled"
    then codes "motion"
    else if field == codes "incident_opened_enabled"
    then codes "incident_opened"
    else field

pub data Refusal : Type 0 where
  sentinel_disabled plan_not_eligible license_required kind_not_a_trigger : Refusal
  trigger_off : Text → Refusal
  camera_out_of_scope outside_schedule_window motion_cooldown_active monthly_cap_reached
        lookup_failed :
      Refusal

-- `ConfigRow`, with the scope of the cameras and the days as they are read from their JSON.
pub record Config : Type 0 where
  pub enabled : Bool
  pub motion_enabled : Bool
  pub incident_opened_enabled : Bool
  pub motion_cooldown_min : ℤ
  pub hours : Hours
  pub camera_scope : Assoc Text Bool

pub record Run : Type 0 where
  pub id : Text
  pub org_id : Text
  pub triggered_at : ℕ
  pub trigger_type : Text
  pub camera_id : Option Text

-- `camera_id.filter(|id| !id.is_empty())`.
abbrev pub named : Option Text → Option Text
named none = none
named (some camera_id) = if is_empty camera_id then none else some camera_id

abbrev pub is_not_false : Option Bool → Bool
is_not_false none = true
is_not_false (some allowed) = allowed

unfoldable pub is_camera_in_scope : Assoc Text Bool → Option Text → Bool
is_camera_in_scope scope camera_id = elim (named camera_id) [
  | none ↦ true
  | some camera ↦ is_not_false (Assoc.get camera scope)
]

abbrev pub is_camera : Text → Option Text → Bool
is_camera camera none = false
is_camera camera (some other) = other == camera

-- A motion run of this camera that is younger than the cooldown. The subtraction of an `i32` of minutes
-- from the clock does not leave the calendar.
abbrev pub is_recent_motion : Text → Text → ℕ → ℕ → Run → Bool
is_recent_motion org_id camera cooldown now run =
    run.org_id == org_id
    && is_camera camera run.camera_id
    && run.trigger_type == codes "motion"
    && leb now (run.triggered_at + cooldown * 60)

-- `lookup` says whether the query succeeds.
unfoldable pub motion_cooldown_allows : Bool → List Run → Text → ℤ → Text → Option Text → ℕ → Bool
motion_cooldown_allows lookup runs org_id cooldown kind camera_id now =
    if kind == codes "motion"
    then elim (named camera_id) [
      | none ↦ true
      | some camera ↦ elim cooldown [
        | negsuc n ↦ true
        | pos n ↦
            if leb n 0
            then true
            else lookup && not (any (is_recent_motion org_id camera n now) runs)
      ]
    ]
    else true

abbrev pub cap_for_plan : Text → ℕ
cap_for_plan plan =
    if plan == codes "pro"
    then 100
    else if plan == codes "pro_plus" || plan == codes "self_host"
    then 500
    else 0

abbrev pub plan_has_sentinel : Text → Bool
plan_has_sentinel plan =
    plan == codes "pro" || plan == codes "pro_plus" || plan == codes "self_host"

-- `LicenseContext` with the settings that the licence reads; one that is missing or fails is empty.
pub record License : Type 0 where
  pub local_auth : Bool
  pub license_key : Option Text
  pub last_check_reachable : Text
  pub license_valid : Text
  pub last_ok_at : Text

abbrev pub grace_hours : ℕ
grace_hours = 72

abbrev pub has_key : Option Text → Bool
has_key none = false
has_key (some key) = not (is_empty key)

-- An instant that cannot be read grants no grace.
abbrev pub in_grace : ℕ → Option ℕ → Bool
in_grace now none = false
in_grace now (some at) = leb now (at + grace_hours * 3_600)

-- `parse_iso` reads a stored time.
unfoldable pub is_sentinel_licensed : (Text → Option ℕ) → License → ℕ → Bool
is_sentinel_licensed parse_iso ctx now =
    if not ctx.local_auth
    then true
    else if not (has_key ctx.license_key)
    then false
    else if ctx.last_check_reachable == codes "true"
    then ctx.license_valid == codes "true"
    else if is_empty ctx.last_ok_at
    then false
    else in_grace now (parse_iso ctx.last_ok_at)

abbrev pub sentinel_blocked_by_license : Bool → Text → Bool
sentinel_blocked_by_license licensed plan = plan == codes "self_host" && not licensed

abbrev pub is_in_month : Text → ℕ → Run → Bool
is_in_month org_id month run = run.org_id == org_id && leb month run.triggered_at

abbrev pub runs_used_this_month : Text → ℕ → List Run → ℕ
runs_used_this_month org_id month runs = length (keep (is_in_month org_id month) runs)

-- What `created_by` is, as text, in the notification's meta.
pub record Meta : Type 0 where
  pub created_by : Option Text

abbrev pub or_blank : Option Text → Text
or_blank none = []
or_blank (some text) = text

abbrev pub starts_with : Text → Text → Bool
starts_with text prefix = elim (strip_prefix prefix text) [ none ↦ false | some rest ↦ true ]

abbrev pub is_agent_name : Text → Bool
is_agent_name created_by =
    starts_with created_by (codes "mcp") || starts_with created_by (codes "sentinel")

unfoldable pub is_agent_authored : Text → Option Meta → Bool
is_agent_authored kind notification_meta =
    if kind == codes "incident_created"
    then elim notification_meta [
      | none ↦ false
      | some meta ↦ is_agent_name (or_blank meta.created_by)
    ]
    else false
