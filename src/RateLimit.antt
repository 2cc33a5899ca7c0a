-- ===== src/RateLimit.antt =====
-- backend-rs/src/ratelimit.rs, `Limiter::check`: a fixed window for each bucket. Instants are
-- milliseconds, and what the shared store counts is an argument.
pub mod Sweeps
mod Tests
use sentinel_command.Prelude.{
  ℕ, suc, ◌-◌, ◌*◌, ◌%◌, ◌^◌, Bool, true, false, ◌&&◌, List, [], ◌∷◌, Option, none, some, length,
  leb, ltb, if◌then◌else◌,
}
use sentinel_command.Text.{Text, text_eq}
use sentinel_command.Assoc.{Assoc, retain}
use sentinel_command.Assoc

-- `MEMORY_SWEEP_EVERY`, ten seconds.
abbrev pub memory_sweep_every : ℕ
memory_sweep_every = 10_000

-- The longest window of a route.
abbrev pub hour : ℕ
hour = 3_600 * 1_000

abbrev pub max_buckets : ℕ
max_buckets = 10_000

-- A count, and the instant at which its window began.
abbrev pub Count : Type 0
Count = ℕ × ℕ

pub record MemoryCounters : Type 0 where
  pub buckets : Assoc Text Count
  pub last_sweep : Option ℕ

abbrev pub no_counters : MemoryCounters
no_counters = record { buckets = []; last_sweep = none }

abbrev pub or_insert : ℕ → Option Count → Count
or_insert now none = (0, now)
or_insert now (some entry) = entry

-- A window that is over begins again.
abbrev pub renew : ℕ → ℕ → Count → Count
renew window now entry = if leb window (now - entry.1) then (0, now) else entry

-- The count is 32 bits wide and wraps, as in a build without overflow checks.
abbrev pub counted : ℕ → ℕ → Option Count → Count
counted window now found =
    let entry = renew window now (or_insert now found) in (suc entry.0 % 2 ^ 32, entry.1)

abbrev pub is_due : ℕ → Option ℕ → Bool
is_due now none = true
is_due now (some at) = leb memory_sweep_every (now - at)

unfoldable pub sweep : ℕ → MemoryCounters → MemoryCounters
sweep now counters =
    if ltb max_buckets (length counters.buckets) && is_due now counters.last_sweep
    then record {
      buckets = retain (λ _ entry. ltb (now - entry.1) hour) counters.buckets;
      last_sweep = some now;
    }
    else counters

unfoldable pub check_memory : Text → ℕ → ℕ → ℕ → MemoryCounters → MemoryCounters × Bool
unfolding sweep
check_memory bucket limit window now counters =
    let entry = counted window now (Assoc.get bucket counters.buckets) in
    (
      sweep now (record counters { buckets = Assoc.insert bucket entry counters.buckets }),
      leb entry.0 limit,
    )

-- With the shared store: its count, or an error, which lets the request through.
abbrev pub check_redis : Option ℕ → ℕ → Bool
check_redis none limit = true
check_redis (some count) limit = leb count limit
