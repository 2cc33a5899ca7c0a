-- ===== src/Dispatch/Schedule/Window.antt =====
-- sentinel_dispatch.rs: a schedule's window is a span of the clock's circle.
use sentinel_command.Prelude.{
  ℕ, ◌+◌, ◌-◌, ◌%◌, ◌≤◌, ◌<◌, ◌≡◌, ltb, if◌then◌else◌, arith, Option-cases, inl, inr,
}
use sentinel_command.Prelude.Int.{ℤ, pos, negsuc, ◌+ℤ◌, ◌*ℤ◌}
use sentinel_command.Text.{Text}
use sentinel_command.Dispatch.Schedule.{
  minutes_a_day, python_int, first_field, second_field, minutes_field, clamp_to_day, saturate,
  parse_hhmm_to_minutes, window_contains,
}

-- How long a window from one minute to another is, over midnight if the second is not the later.
abbrev pub span : ℕ → ℕ → ℕ
span start end = if ltb start end then end - start else minutes_a_day + end - start

-- How long ago the clock showed a minute.
abbrev pub since : ℕ → ℕ → ℕ
since start current = (current + minutes_a_day - start) % minutes_a_day

window_contains-eq-within :
    (start end current : ℕ)
    → start ≤ minutes_a_day
    → end ≤ minutes_a_day
    → current < minutes_a_day
    → window_contains start end current ≡ ltb (since start current) (span start end)
unfolding window_contains
window_contains-eq-within start end current h k l = ground arith

clamp_to_day-le : (n : ℤ) → clamp_to_day n ≤ minutes_a_day
clamp_to_day-le (pos n) = ground arith
clamp_to_day-le (negsuc n) = omega arith

-- A bound that is read is a minute of the day, or its end.
parse_hhmm_to_minutes-le :
    (value : Text) (default : ℕ)
    → default ≤ minutes_a_day
    → parse_hhmm_to_minutes value default ≤ minutes_a_day
unfolding parse_hhmm_to_minutes
parse_hhmm_to_minutes-le value default h = elim (Option-cases (python_int (first_field value))) [
  | inl e ↦ rw (e, parse_hhmm_to_minutes) h
  | inr (hours, e) ↦ elim (Option-cases (minutes_field (second_field value))) [
    | inl f ↦ rw (e, parse_hhmm_to_minutes) (rw (f, parse_hhmm_to_minutes) h)
    | inr (minutes, f) ↦
        rw (e, parse_hhmm_to_minutes)
          (rw (f, parse_hhmm_to_minutes)
            (clamp_to_day-le (saturate (saturate (hours *ℤ pos 60) +ℤ minutes))))
  ]
]

-- A window between two bounds, whatever they are written like, holds at the minutes that come less than
-- its length after its start, over midnight too: a window whose end is not after its start goes on
-- into the next day, and is the whole day if they are equal.
pub window_contains-parse_hhmm_to_minutes :
    (start end : Text) (s e current : ℕ)
    → s ≤ minutes_a_day
    → e ≤ minutes_a_day
    → current < minutes_a_day
    → let from = parse_hhmm_to_minutes start s in
      let to = parse_hhmm_to_minutes end e in
      window_contains from to current ≡ ltb (since from current) (span from to)
window_contains-parse_hhmm_to_minutes start end s e current h k l =
    window_contains-eq-within (parse_hhmm_to_minutes start s) (parse_hhmm_to_minutes end e) current
      (parse_hhmm_to_minutes-le start s h) (parse_hhmm_to_minutes-le end e k) l
