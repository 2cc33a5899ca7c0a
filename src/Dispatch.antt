-- ===== src/Dispatch.antt =====
-- backend-rs/src/sentinel_dispatch.rs: whether a notification wakes the agent. The runs are the rows
-- of their table. What the other tables and the services say is an argument, as are the rows that
-- others insert between the gate and the insert; times are seconds.
pub mod Schedule
pub mod Rules
pub mod Gates
pub mod Wanted
mod Tests
use sentinel_command.Prelude.{
  ℕ, ◌+◌, ◌-◌, ◌*◌, Bool, true, false, not, ◌&&◌, ◌||◌, List, [], ◌∷◌, ◌++◌, Option, none, some,
  leb, ltb, if◌then◌else◌, keep, any, length,
}
use sentinel_command.Prelude.Int.{ℤ, pos, negsuc, leb_ℤ, ltb_ℤ}
use sentinel_command.Interfaces.{◌==◌}
use sentinel_command.Text.{Text, text_eq, codes, is_empty, strip_prefix}
use sentinel_command.Assoc.{Assoc}
use sentinel_command.Assoc
use sentinel_command.Dispatch.Schedule.{schedule_allows_now}
use sentinel_command.Dispatch.Rules.{
  trigger_fields, trigger_type_for, Refusal, Config, Run, named, is_not_false, is_camera_in_scope,
  is_camera, is_recent_motion, motion_cooldown_allows, cap_for_plan, plan_has_sentinel,
  sentinel_blocked_by_license, License, is_sentinel_licensed, is_in_month, runs_used_this_month,
  Meta, or_blank, starts_with, is_agent_name, is_agent_authored, sentinel_disabled,
  plan_not_eligible, license_required, kind_not_a_trigger, trigger_off, camera_out_of_scope,
  outside_schedule_window, motion_cooldown_active, monthly_cap_reached, lookup_failed,
}

-- A notification, and the id that a run for it would get.
pub record Notification : Type 0 where
  pub org_id : Text
  pub kind : Text
  pub camera_id : Option Text
  pub meta : Option Meta
  pub run_id : Text

-- What the rest of the service says: the settings of the operator, the config of the organisation, its
-- plan at the gate and at the insert, its licence, the clocks at both, and which queries succeed.
pub record World : Type 0 where
  pub sentinel_dispatch_enabled : Bool
  pub sentinel_global_monthly_run_cap : ℤ
  pub config : Option Config
  pub plan : Text
  pub plan_at_insert : Text
  pub license : License
  pub parse_iso : Text → Option ℕ
  pub now : ℕ
  pub month : ℕ
  pub today : Text
  pub minute : ℕ
  pub triggered_at : ℕ
  pub month_at_insert : ℕ
  pub count_all_succeeds : Bool
  pub config_succeeds : Bool
  pub cooldown_succeeds : Bool
  pub count_succeeds : Bool
  pub insert_succeeds : Bool

abbrev pub is_licensed : World → Bool
is_licensed w = is_sentinel_licensed w.parse_iso w.license w.now

-- `none` for a query that fails.
unfoldable pub global_dispatch_allowed : World → List Run → Option Bool
global_dispatch_allowed w runs =
    if w.sentinel_dispatch_enabled
    then if leb_ℤ w.sentinel_global_monthly_run_cap (pos 0)
      then some true
      else if w.count_all_succeeds
      then some (
          ltb_ℤ (pos (length (keep (λ run. leb w.month run.triggered_at) runs)))
            w.sentinel_global_monthly_run_cap)
      else none
    else some false

abbrev pub trigger_is_on : Config → Text → Bool
trigger_is_on cfg field =
    if field == codes "motion_enabled"
    then cfg.motion_enabled
    else if field == codes "incident_opened_enabled"
    then cfg.incident_opened_enabled
    else false

-- The gates behind the trigger's.
unfoldable pub later_gates : World → List Run → Notification → Config → Option Refusal
unfolding is_camera_in_scope motion_cooldown_allows
later_gates w runs n cfg =
    if not (is_camera_in_scope cfg.camera_scope n.camera_id)
    then some camera_out_of_scope
    else if not (schedule_allows_now cfg.hours w.today w.minute)
    then some outside_schedule_window
    else if not (
        motion_cooldown_allows w.cooldown_succeeds runs n.org_id cfg.motion_cooldown_min n.kind
          n.camera_id w.now)
    then some motion_cooldown_active
    else if not w.count_succeeds
    then some lookup_failed
    else if leb (cap_for_plan w.plan) (runs_used_this_month n.org_id w.month runs)
    then some monthly_cap_reached
    else none

-- `none` for `Ok(())`.
unfoldable pub can_dispatch_for_kind : World → List Run → Notification → Config → Option Refusal
unfolding later_gates
can_dispatch_for_kind w runs n cfg =
    if not cfg.enabled
    then some sentinel_disabled
    else if not (plan_has_sentinel w.plan)
    then some plan_not_eligible
    else if sentinel_blocked_by_license (is_licensed w) w.plan
    then some license_required
    else elim (Assoc.get n.kind trigger_fields) [
      | none ↦ some kind_not_a_trigger
      | some field ↦
          if not (trigger_is_on cfg field)
          then some (trigger_off field)
          else later_gates w runs n cfg
    ]

-- The insert and the second count in one transaction: `true` for a commit, with the rows after it.
abbrev pub insert_run : ℕ → ℕ → Run → List Run → List Run × Bool
insert_run month cap run runs =
    let inserted = runs ++ run ∷ [] in
    if ltb cap (runs_used_this_month run.org_id month inserted)
    then (runs, false)
    else (inserted, true)

abbrev pub or_kind : Text → Option Text → Text
or_kind kind none = kind
or_kind kind (some field) = field

abbrev pub run_for : World → Notification → Run
run_for w n = record {
  id = n.run_id;
  org_id = n.org_id;
  triggered_at = w.triggered_at;
  trigger_type = trigger_type_for (or_kind n.kind (Assoc.get n.kind trigger_fields));
  camera_id = n.camera_id;
}

abbrev pub insert_for : World → Notification → List Run → List Run × Option Text
insert_for w n runs =
    if w.insert_succeeds
    then (let out =
          insert_run w.month_at_insert (cap_for_plan w.plan_at_insert) (run_for w n) runs in
        (out.0, if out.1 then some n.run_id else none))
    else (runs, none)

abbrev pub is_allowed : Option Bool → Bool
is_allowed none = false
is_allowed (some allowed) = allowed

-- The rows and the id of the run. `meanwhile` is what others insert between the gate and the insert.
unfoldable pub maybe_dispatch_for_notification :
    World → (List Run → List Run) → Notification → List Run → List Run × Option Text
unfolding global_dispatch_allowed is_agent_authored can_dispatch_for_kind
maybe_dispatch_for_notification w meanwhile n runs =
    if is_allowed (global_dispatch_allowed w runs)
    then if is_agent_authored n.kind n.meta
      then (runs, none)
      else if w.config_succeeds
      then elim w.config [
        | none ↦ (runs, none)
        | some cfg ↦ elim (can_dispatch_for_kind w runs n cfg) [
          | some refusal ↦ (runs, none)
          | none ↦ insert_for w n (meanwhile runs)
        ]
      ]
      else (runs, none)
    else (runs, none)
