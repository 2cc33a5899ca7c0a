-- ===== src/Hls/Viewer/Flush.antt =====
-- hls.rs, `flush_viewer_usage` over a database whose upsert adds.
use sentinel_command.Prelude.{none, some, Option}
use sentinel_command.Prelude.Int.{ℤ, ◌+ℤ◌}
use sentinel_command.Interfaces.{pair_eq}
use sentinel_command.Text.{text_eq}
use sentinel_command.Assoc.{Assoc}
use sentinel_command.Assoc
use sentinel_command.Assoc.Laws as AssocLaws
use sentinel_command.Hls.Viewer.{OrgMonth, or_zero, UsageDb}

-- The total that is cached of a key after the loop, given what the snapshot has of it.
abbrev pub cached_total : (u : UsageDb) → u.Db → Assoc OrgMonth ℤ → OrgMonth → Option ℤ → Option ℤ
cached_total u db cached other none = Assoc.get other cached
cached_total u db cached other (some delta) = some (or_zero (u.query db other) +ℤ delta)
