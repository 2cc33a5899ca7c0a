-- ===== src/Versions/Tests.antt =====
-- A node of versions.rs that is behind.
use sentinel_command.Prelude.{◌≡◌, true, some, arith}
use sentinel_command.Versions.{Version, format_version, check_node_version}
use sentinel_command.Versions.RoundTrip.{check_node_version-format_version}

abbrev node : Version
node = (0, 9, 12)

abbrev least : Version
least = (0, 9, 2)

abbrev latest : Version
latest = (0, 10, 0)

check_node_version-format_version_example :
    check_node_version (some (format_version node)) (format_version least) (format_version latest)
    ≡ record {
      reported = some (format_version node);
      parsed = format_version node;
      supported = true;
      min_supported = format_version least;
      latest = format_version latest;
      update_available = some (format_version latest);
    }
check_node_version-format_version_example =
    check_node_version-format_version node least latest (omega arith, omega arith, omega arith)
      (omega arith, omega arith, omega arith) (omega arith, omega arith, omega arith)
