-- ===== src/Plans/Effective.antt =====
-- plans.rs, `effective_plan_for_caps`: what its cache serves, and for how long.
use sentinel_command.Text.{Text, text_eq}
use sentinel_command.Assoc.{Assoc, retain}
use sentinel_command.Assoc
use sentinel_command.Assoc.Laws as AssocLaws
