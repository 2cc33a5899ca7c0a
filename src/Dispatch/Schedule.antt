-- ===== src/Dispatch/Schedule.antt =====
-- backend-rs/src/sentinel_dispatch.rs: the hours in which the agent may be woken. Texts are code
-- points here; the day and the minute in the organisation's zone are arguments.
pub mod Window
use sentinel_command.Prelude.{
  ℕ, suc, ◌+◌, ◌-◌, ◌*◌, Bool, true, false, not, ◌&&◌, ◌||◌, List, [], ◌∷◌, ◌++◌, Option, none,
  some, leb, ltb, nat_beq, if◌then◌else◌,
}
use sentinel_command.Prelude.Int.{ℤ, pos, negsuc, ◌+ℤ◌, ◌*ℤ◌, ltb_ℤ, sub_ℕ}
use sentinel_command.Interfaces.{◌==◌}
use sentinel_command.Text.{Text, text_eq, codes, is_empty, is_ascii_digit}
use sentinel_command.Assoc.{member}

-- `char::is_whitespace`, and the separators that Python strips too.
abbrev pub is_stripped : ℕ → Bool
is_stripped c =
    leb 9 c && leb c 13
    || leb 28 c && leb c 32
    || nat_beq c 133
    || nat_beq c 160
    || nat_beq c 5760
    || leb 8192 c && leb c 8202
    || nat_beq c 8232
    || nat_beq c 8233
    || nat_beq c 8239
    || nat_beq c 8287
    || nat_beq c 12288

unfoldable pub trim_start : Text → Text
trim_start [] = []
trim_start (c ∷ s) = let rest = trim_start s in if is_stripped c then rest else c ∷ s

unfoldable pub trim_end : Text → Text
trim_end [] = []
trim_end (c ∷ s) = let rest = trim_end s in if is_stripped c && is_empty rest then [] else c ∷ rest

abbrev pub i64_max : ℕ
i64_max = 9_223_372_036_854_775_807

unfoldable pub digits_value : ℕ → Text → Option ℕ
digits_value value [] = some value
digits_value value (c ∷ s) =
    let rest = digits_value (value * 10 + (c - b'0')) s in if is_ascii_digit c then rest else none

-- The digits as an `i64`, if there are digits and they fit.
abbrev pub checked_digits : Text → Option ℕ
checked_digits digits = if is_empty digits then none else elim (digits_value 0 digits) [
  | none ↦ none
  | some value ↦ if leb value i64_max then some value else none
]

abbrev pub negated : ℕ → ℤ
negated value = sub_ℕ 0 value

abbrev pub as_pos : Option ℕ → Option ℤ
as_pos none = none
as_pos (some value) = some (pos value)

abbrev pub as_negated : Option ℕ → Option ℤ
as_negated none = none
as_negated (some value) = some (negated value)

abbrev pub signed_digits : Text → Option ℤ
signed_digits [] = none
signed_digits (c ∷ s) =
    if nat_beq c b'-'
    then as_negated (checked_digits s)
    else if nat_beq c b'+'
    then as_pos (checked_digits s)
    else as_pos (checked_digits (c ∷ s))

unfoldable pub python_int : Text → Option ℤ
unfolding trim_start trim_end digits_value
python_int s = signed_digits (trim_end (trim_start s))

-- `split(':')`: the first field, and the second if there is one.
unfoldable pub first_field : Text → Text
first_field [] = []
first_field (c ∷ s) = let rest = first_field s in if nat_beq c b':' then [] else c ∷ rest

unfoldable pub second_field : Text → Option Text
unfolding first_field
second_field [] = none
second_field (c ∷ s) =
    let rest = second_field s in if nat_beq c b':' then some (first_field s) else rest

-- The nearest `i64`.
abbrev pub saturate : ℤ → ℤ
saturate n =
    if ltb_ℤ (pos i64_max) n
    then pos i64_max
    else if ltb_ℤ n (negsuc i64_max)
    then negsuc i64_max
    else n

abbrev pub minutes_a_day : ℕ
minutes_a_day = 1_440

-- `clamp(0, 24 * 60)`.
abbrev pub clamp_to_day : ℤ → ℕ
clamp_to_day (pos n) = if leb minutes_a_day n then minutes_a_day else n
clamp_to_day (negsuc n) = 0

abbrev pub minutes_field : Option Text → Option ℤ
minutes_field none = some (pos 0)
minutes_field (some raw) = python_int raw

unfoldable pub parse_hhmm_to_minutes : Text → ℕ → ℕ
unfolding first_field second_field
parse_hhmm_to_minutes value default = elim (python_int (first_field value)) [
  | none ↦ default
  | some hours ↦ elim (minutes_field (second_field value)) [
    | none ↦ default
    | some minutes ↦ clamp_to_day (saturate (saturate (hours *ℤ pos 60) +ℤ minutes))
  ]
]

unfoldable pub window_contains : ℕ → ℕ → ℕ → Bool
window_contains start end current =
    if ltb start end
    then leb start current && ltb current end
    else leb start current || ltb current end

abbrev pub python_or : Text → Text → Text
python_or value fallback = if is_empty value then fallback else value

-- What a config says of the hours.
pub record Hours : Type 0 where
  pub schedule_mode : Text
  pub schedule_start : Text
  pub schedule_end : Text
  pub active_days : List Text

unfoldable pub schedule_allows_now : Hours → Text → ℕ → Bool
unfolding parse_hhmm_to_minutes window_contains
schedule_allows_now cfg today current =
    if cfg.schedule_mode == codes "off"
    then false
    else if cfg.schedule_mode == codes "scheduled"
    then if member today cfg.active_days
      then window_contains (parse_hhmm_to_minutes (python_or cfg.schedule_start (codes "00:00")) 0)
          (parse_hhmm_to_minutes (python_or cfg.schedule_end (codes "24:00")) minutes_a_day) current
      else false
    else true
