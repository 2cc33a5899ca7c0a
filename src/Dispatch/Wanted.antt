-- ===== src/Dispatch/Wanted.antt =====
-- sentinel_dispatch.rs: the gates in turn let through what each of them would.
use sentinel_command.Prelude.{
  ◌≡◌, refl, ap, ◌∙◌, Bool, true, false, not, ◌&&◌, ◌||◌, List, Option, none, some, ltb,
  if◌then◌else◌, arith,
}
use sentinel_command.Interfaces.{◌==◌}
use sentinel_command.Text.{Text, text_eq, codes}
use sentinel_command.Assoc
use sentinel_command.Dispatch.Schedule.{schedule_allows_now}
use sentinel_command.Dispatch.Rules.{
  trigger_fields, Refusal, sentinel_disabled, plan_not_eligible, license_required,
  kind_not_a_trigger, trigger_off, Config, Run, is_camera_in_scope, motion_cooldown_allows,
  cap_for_plan, plan_has_sentinel, sentinel_blocked_by_license, runs_used_this_month,
  is_agent_authored,
}
use sentinel_command.Dispatch.{
  is_licensed, Notification, World, global_dispatch_allowed, trigger_is_on, later_gates,
  can_dispatch_for_kind, is_allowed,
}

abbrev pub is_none {ℓ} : {A : Type ℓ} → Option A → Bool
is_none none = true
is_none (some a) = false

abbrev is_on : (Text → Bool) → Option Text → Bool
is_on on none = false
is_on on (some field) = on field

-- Gates in turn let through what passes each.
in_turn :
    (on : Text → Bool) (enabled eligible blocked : Bool) (field : Option Text)
    (rest : Option Refusal)
    → is_none (
        if not enabled
        then some sentinel_disabled
        else if not eligible
        then some plan_not_eligible
        else if blocked
        then some license_required
        else elim field [
          | none ↦ some kind_not_a_trigger
          | some f ↦ if not (on f) then some (trigger_off f) else rest
        ])
      ≡ (enabled && eligible && not blocked && is_on on field && is_none rest)
in_turn on false eligible blocked field rest = refl
in_turn on true false blocked field rest = refl
in_turn on true true true field rest = refl
in_turn on true true false none rest = refl
in_turn on true true false (some f) rest = ground arith

module _ (w : World) (runs : List Run) (n : Notification) where
  -- The trigger of this kind is on.
  abbrev pub is_triggered : Config → Bool
  is_triggered cfg =
      codes "motion" == n.kind && cfg.motion_enabled
      || codes "incident_created" == n.kind && cfg.incident_opened_enabled

  abbrev pub is_watching : Config → Bool
  is_watching cfg =
      is_camera_in_scope cfg.camera_scope n.camera_id
      && schedule_allows_now cfg.hours w.today w.minute
      && motion_cooldown_allows w.cooldown_succeeds runs n.org_id cfg.motion_cooldown_min n.kind
          n.camera_id w.now

  abbrev pub has_room : Bool
  has_room =
      w.count_succeeds && ltb (runs_used_this_month n.org_id w.month runs) (cap_for_plan w.plan)

  -- All that an organisation asks for.
  abbrev pub is_wanted : Config → Bool
  is_wanted cfg =
      cfg.enabled
      && plan_has_sentinel w.plan
      && not (sentinel_blocked_by_license (is_licensed w) w.plan)
      && is_triggered cfg
      && (is_watching cfg && has_room)

  abbrev pub is_wanted_by : Option Config → Bool
  is_wanted_by none = false
  is_wanted_by (some cfg) = is_wanted cfg

  abbrev pub passes : Bool
  passes =
      is_allowed (global_dispatch_allowed w runs)
      && not (is_agent_authored n.kind n.meta)
      && w.config_succeeds
      && is_wanted_by w.config

  later_gates-is_none :
      (cfg : Config) → is_none (later_gates w runs n cfg) ≡ (is_watching cfg && has_room)
  unfolding later_gates
  later_gates-is_none cfg = ground arith

  trigger_in-kind :
      (cfg : Config)
      → is_on (λ field. trigger_is_on cfg field) (Assoc.get n.kind trigger_fields)
        ≡ is_triggered cfg
  unfolding Assoc.get
  trigger_in-kind cfg = ground arith

  pub can_dispatch-is_none :
      (cfg : Config) → is_none (can_dispatch_for_kind w runs n cfg) ≡ is_wanted cfg
  unfolding can_dispatch_for_kind
  can_dispatch-is_none cfg =
      in_turn (λ field. trigger_is_on cfg field) cfg.enabled (plan_has_sentinel w.plan)
        (sentinel_blocked_by_license (is_licensed w) w.plan) (Assoc.get n.kind trigger_fields)
        (later_gates w runs n cfg)
      ∙ ap
          (λ (rest : Bool).
            cfg.enabled
            && plan_has_sentinel w.plan
            && not (sentinel_blocked_by_license (is_licensed w) w.plan)
            && is_on (λ field. trigger_is_on cfg field) (Assoc.get n.kind trigger_fields)
            && rest)
          (later_gates-is_none cfg)
      ∙ ap
          (λ (on : Bool).
            cfg.enabled
            && plan_has_sentinel w.plan
            && not (sentinel_blocked_by_license (is_licensed w) w.plan)
            && on
            && (is_watching cfg && has_room))
          (trigger_in-kind cfg)
