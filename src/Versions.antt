-- ===== src/Versions.antt =====
-- backend-rs/src/versions.rs: reading and writing versions, and what a node is told of its own. The
-- cached release is a parameter of the callers.
pub mod RoundTrip
mod Tests
use sentinel_command.Prelude.{
  ℕ, zero, suc, ◌+◌, ◌-◌, ◌*◌, ◌/◌, ◌%◌, Bool, true, false, not, ◌&&◌, ◌||◌, List, [], ◌∷◌, ◌++◌,
  Option, none, some, length, drop, leb, ltb, nat_beq, if◌then◌else◌,
}
use sentinel_command.Text.{Text, codes, strip_prefix, leading_digits, is_empty}

abbrev pub Version : Type 0
Version = ℕ × ℕ × ℕ

abbrev pub u64_max : ℕ
u64_max = 18_446_744_073_709_551_615

-- The number that digits write.
unfoldable pub value : ℕ → Text → ℕ
value n [] = n
value n (c ∷ s) = value (n * 10 + (c - b'0')) s

-- `digits.parse().unwrap_or(0)`.
abbrev pub parse_u64 : Text → ℕ
parse_u64 digits = if leb (value 0 digits) u64_max then value 0 digits else 0

-- A part and what follows it, unless there is no digit.
abbrev pub read_part : Text → Option (ℕ × Text)
read_part s =
    let digits = leading_digits s in
    if is_empty digits then none else some (parse_u64 digits, drop (length digits) s)

abbrev pub read_dot_part : Text → Option (ℕ × Text)
read_dot_part s = elim (strip_prefix (codes ".") s) [ none ↦ none | some rest ↦ read_part rest ]

abbrev pub is_space : ℕ → Bool
is_space c = nat_beq c 32 || leb 9 c && leb c 13

unfoldable pub trim_spaces : Text → Text
trim_spaces [] = []
trim_spaces (c ∷ s) = let rest = trim_spaces s in if is_space c then rest else c ∷ s

abbrev pub strip_v : Text → Text
strip_v s = elim (strip_prefix (codes "v") s) [ none ↦ s | some rest ↦ rest ]

unfoldable pub parse_parts : Text → Version
parse_parts s = elim (read_part s) [
  | none ↦ (0, 0, 0)
  | some (major, s₁) ↦ elim (read_dot_part s₁) [
    | none ↦ (0, 0, 0)
    | some (minor, s₂) ↦ elim (read_dot_part s₂) [
      | none ↦ (0, 0, 0)
      | some (patch, s₃) ↦ (major, minor, patch)
    ]
  ]
]

-- `filter(|v| !v.is_empty())`.
abbrev pub non_empty : Option Text → Option Text
non_empty none = none
non_empty (some s) = if is_empty s then none else some s

abbrev pub parse_given : Option Text → Version
parse_given none = (0, 0, 0)
parse_given (some s) = parse_parts (strip_v (trim_spaces s))

unfoldable pub parse_version : Option Text → Version
unfolding trim_spaces parse_parts
parse_version version = parse_given (non_empty version)

-- The decimal digits of a number; `n` steps are enough for `n`.
unfoldable pub digits_of : ℕ → ℕ → Text
digits_of zero n = (b'0' + n % 10) ∷ []
digits_of (suc left) n =
    let rest = digits_of left (n / 10) in
    if ltb n 10 then (b'0' + n) ∷ [] else rest ++ ((b'0' + n % 10) ∷ [])

unfoldable pub format_version : Version → Text
unfolding digits_of
format_version (major, minor, patch) =
    digits_of major major ++ (b'.' ∷ (digits_of minor minor ++ (b'.' ∷ digits_of patch patch)))

-- `<` of tuples.
abbrev pub is_older : Version → Version → Bool
is_older (a, b, c) (x, y, z) = ltb a x || nat_beq a x && (ltb b y || nat_beq b y && ltb c z)

pub record Report : Type 0 where
  pub reported : Option Text
  pub parsed : Text
  pub supported : Bool
  pub min_supported : Text
  pub latest : Text
  pub update_available : Option Text

abbrev pub is_supported : Option Text → Version → Version → Bool
is_supported none parsed min_parts = true
is_supported (some s) parsed min_parts = not (is_older parsed min_parts)

unfoldable pub check_node_version : Option Text → Text → Text → Report
unfolding parse_version format_version
check_node_version reported min_supported latest =
    let parsed = parse_version reported in
    let min_parts = parse_version (some min_supported) in
    let latest_parts = parse_version (some latest) in
    record {
      reported = reported;
      parsed = format_version parsed;
      supported = is_supported (non_empty reported) parsed min_parts;
      min_supported = format_version min_parts;
      latest = format_version latest_parts;
      update_available =
          if is_older parsed latest_parts then some (format_version latest_parts) else none;
    }
