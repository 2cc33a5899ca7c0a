-- ===== src/Dispatch/Tests.antt =====
-- A notification of sentinel_dispatch.rs at a concrete table.
use sentinel_command.Prelude.{◌≡◌, true, false, List, [], ◌∷◌, none, some, arith, ltb}
use sentinel_command.Prelude.Int.{pos}
use sentinel_command.Text.{codes}
use sentinel_command.Dispatch.Schedule.{parse_hhmm_to_minutes, window_contains}
use sentinel_command.Dispatch.Schedule.Window.{since, span, window_contains-parse_hhmm_to_minutes}
use sentinel_command.Dispatch.Rules.{Config, Run}
use sentinel_command.Dispatch.{Notification, World, maybe_dispatch_for_notification}
use sentinel_command.Dispatch.Gates.{Dispatched, maybe_dispatch_for_notification-Dispatched}

-- The night, from 22:30 to 06:15.
window_contains-parse_hhmm_to_minutes_example :
    window_contains
      (parse_hhmm_to_minutes (codes "22:30") 0)
      (parse_hhmm_to_minutes (codes "06:15") 1_440)
      60
    ≡ ltb (since (parse_hhmm_to_minutes (codes "22:30") 0) 60) (
        span
          (parse_hhmm_to_minutes (codes "22:30") 0)
          (parse_hhmm_to_minutes (codes "06:15") 1_440))
window_contains-parse_hhmm_to_minutes_example =
    window_contains-parse_hhmm_to_minutes (codes "22:30") (codes "06:15") 0 1_440 60 (omega arith)
      (omega arith) (omega arith)

abbrev config : Config
config = record {
  enabled = true;
  motion_enabled = true;
  incident_opened_enabled = false;
  motion_cooldown_min = pos 5;
  hours = record {
    schedule_mode = codes "always";
    schedule_start = codes "";
    schedule_end = codes "";
    active_days = [];
  };
  camera_scope = [];
}

abbrev world : World
world = record {
  sentinel_dispatch_enabled = true;
  sentinel_global_monthly_run_cap = pos 0;
  config = some config;
  plan = codes "pro";
  plan_at_insert = codes "pro";
  license = record {
    local_auth = false;
    license_key = none;
    last_check_reachable = codes "";
    license_valid = codes "";
    last_ok_at = codes "";
  };
  parse_iso = λ _. none;
  now = 1_000;
  month = 0;
  today = codes "mon";
  minute = 60;
  triggered_at = 1_000;
  month_at_insert = 0;
  count_all_succeeds = true;
  config_succeeds = true;
  cooldown_succeeds = true;
  count_succeeds = true;
  insert_succeeds = true;
}

abbrev motion : Notification
motion = record {
  org_id = codes "a";
  kind = codes "motion";
  camera_id = some (codes "c");
  meta = none;
  run_id = codes "r";
}

-- Another task queues a run of the same organisation meanwhile.
abbrev another : List Run → List Run
another runs =
    record {
      id = codes "q";
      org_id = codes "a";
      triggered_at = 999;
      trigger_type = codes "motion";
      camera_id = some (codes "d");
    }
    ∷ runs

maybe_dispatch_for_notification-Dispatched_example :
    Dispatched world another motion [] (maybe_dispatch_for_notification world another motion [])
maybe_dispatch_for_notification-Dispatched_example =
    maybe_dispatch_for_notification-Dispatched world another motion []
