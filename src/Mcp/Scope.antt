-- ===== src/Mcp/Scope.antt =====
-- backend-rs/src/mcp/scope.rs: the tools that a key, or the agent, may call. A `BTreeSet` is a list
-- without repetition, whose order nothing here reads.
pub mod Reach
use sentinel_command.Prelude.{
  ℕ, ◌+◌, Bool, true, false, ◌&&◌, List, [], ◌∷◌, ◌++◌, map, Option, none, some, leb, if◌then◌else◌,
  keep,
}
use sentinel_command.Interfaces.{◌==◌}
use sentinel_command.Text.{Text, text_eq, codes, is_empty}
use sentinel_command.Assoc.{member}

abbrev pub mcp_read_tools : List Text
mcp_read_tools =
    codes "list_cameras"
    ∷ codes "get_camera"
    ∷ codes "get_stream_url"
    ∷ codes "view_camera"
    ∷ codes "watch_camera"
    ∷ codes "list_camera_groups"
    ∷ codes "list_nodes"
    ∷ codes "get_node"
    ∷ codes "get_camera_recording_policy"
    ∷ codes "get_stream_logs"
    ∷ codes "get_stream_stats"
    ∷ codes "get_system_status"
    ∷ codes "list_incidents"
    ∷ codes "get_incident"
    ∷ codes "get_incident_snapshot"
    ∷ codes "get_incident_clip"
    ∷ []

abbrev pub mcp_write_tools : List Text
mcp_write_tools =
    codes "create_incident"
    ∷ codes "add_observation"
    ∷ codes "attach_snapshot"
    ∷ codes "attach_clip"
    ∷ codes "update_incident"
    ∷ codes "finalize_incident"
    ∷ codes "set_camera_recording_policy"
    ∷ []

abbrev pub agent_write_tools : List Text
agent_write_tools =
    codes "create_incident"
    ∷ codes "add_observation"
    ∷ codes "attach_snapshot"
    ∷ codes "attach_clip"
    ∷ codes "update_incident"
    ∷ codes "finalize_incident"
    ∷ []

-- `collect` into a set.
unfoldable pub collect : List Text → List Text
collect [] = []
collect (tool ∷ tools) = let rest = collect tools in if member tool rest then rest else tool ∷ rest

unfoldable pub all_tools : List Text
unfolding collect
all_tools = collect (mcp_read_tools ++ mcp_write_tools)

unfoldable pub read_tools : List Text
unfolding collect
read_tools = collect mcp_read_tools

unfoldable pub compute_agent_allowed_tools : List Text → List Text → List Text → List Text
unfolding collect
compute_agent_allowed_tools all reads agent_writes =
    collect (keep (λ tool. member tool all) (reads ++ agent_writes))

abbrev pub agent_allowed_tools : List Text
agent_allowed_tools = compute_agent_allowed_tools all_tools read_tools (collect agent_write_tools)

-- `to_lowercase`, of the ASCII letters: no other letter has a lower case in the words compared.
abbrev pub lower_byte : ℕ → ℕ
lower_byte c = if leb b'A' c && leb c b'Z' then c + 32 else c

abbrev pub or_all : Option Text → Text
or_all none = codes "all"
or_all (some mode) = mode

abbrev pub or_no_tools : Option (List Text) → List Text
or_no_tools none = []
or_no_tools (some tools) = tools

abbrev pub mode_of : Option Text → Text
mode_of scope_mode = map lower_byte (or_all scope_mode)

-- An absent list of tools and an empty one give no access alike.
unfoldable pub compute_allowed_tools : Option Text → Option (List Text) → List Text
unfolding collect
compute_allowed_tools scope_mode scope_tools =
    if mode_of scope_mode == codes "readonly"
    then read_tools
    else if mode_of scope_mode == codes "custom"
    then collect (keep (λ name. member name all_tools) (or_no_tools scope_tools))
    else all_tools

-- The calls of a minute and of a day; a plan without tools has none.
abbrev pub rate_limits : Text → Option (ℕ × ℕ)
rate_limits plan =
    if plan == codes "pro"
    then some (30, 5_000)
    else if plan == codes "pro_plus"
    then some (120, 30_000)
    else if plan == codes "self_host"
    then some (120, 30_000)
    else none
