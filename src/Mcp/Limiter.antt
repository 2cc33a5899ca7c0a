-- ===== src/Mcp/Limiter.antt =====
-- backend-rs/src/mcp/scope.rs, `RateLimiter`: two sliding windows for each key, a minute and a day.
-- `now` is the instant of a call, in microseconds; a comparison with `now` less an age is written
-- with the age on the other side, so that nothing stops at zero.
pub mod Keeping
pub mod Pruning
pub mod Budget
pub mod Ledger
use sentinel_command.Prelude.{
  ℕ, suc, ◌+◌, ◌-◌, ◌*◌, Bool, true, false, List, [], ◌∷◌, ◌++◌, Option, none, some, length, leb,
  ltb, if◌then◌else◌,
}
use sentinel_command.Text.{Text, text_eq, is_empty}
use sentinel_command.Assoc.{Assoc, remove_all}
use sentinel_command.Assoc
use sentinel_command.Window.{pop_aged, or_nil}

pub record Windows : Type 0 where
  pub minute : Assoc Text (List ℕ)
  pub daily : Assoc Text (List ℕ)
  pub last_prune : ℕ

abbrev pub secs : ℕ → ℕ
secs n = n * 1_000_000

-- `PRUNE_INTERVAL`, an hour.
abbrev pub prune_interval : ℕ
prune_interval = secs 3_600

abbrev pub minute_age : ℕ
minute_age = secs 60

abbrev pub daily_age : ℕ
daily_age = secs 86_400

pub data Breach : Type 0 where
  no_breach minute_breach daily_breach : Breach

pub record Verdict : Type 0 where
  pub allowed : Bool
  pub remaining_minute : ℕ
  pub breach : Breach

abbrev pub starting_at : ℕ → Windows
starting_at now = record { minute = []; daily = []; last_prune = now }

-- `with`: a static limiter has no maps before its first use.
abbrev pub or_start : ℕ → Option Windows → Windows
or_start now none = starting_at now
or_start now (some windows) = windows

-- The instant is more than `age` before `now`.
abbrev pub is_aged : ℕ → ℕ → ℕ → Bool
is_aged age now at = ltb (at + age) now

unfoldable pub pop_daily : ℕ → Assoc Text (List ℕ) → Assoc Text (List ℕ)
pop_daily now [] = []
pop_daily now ((key_hash, window) ∷ daily) =
    (key_hash, pop_aged (is_aged daily_age now) window) ∷ pop_daily now daily

-- The keys whose popped window is empty.
unfoldable pub dead : Assoc Text (List ℕ) → List Text
dead [] = []
dead ((key_hash, window) ∷ daily) =
    let rest = dead daily in if is_empty window then key_hash ∷ rest else rest

unfoldable pub prune : ℕ → Windows → Windows
prune now windows =
    let popped = pop_daily now windows.daily in
    record windows {
      daily = remove_all (dead popped) popped;
      minute = remove_all (dead popped) windows.minute;
    }

unfoldable pub prune_if_due : ℕ → Windows → Windows
prune_if_due now windows =
    if leb (windows.last_prune + prune_interval) now
    then record (prune now windows) { last_prune = now }
    else windows

unfoldable pub check_at : Text → ℕ → ℕ → ℕ → Windows → Windows × Verdict
check_at key_hash minute_limit daily_limit now windows =
    let pruned = prune_if_due now windows in
    let minute = pop_aged (is_aged minute_age now) (or_nil (Assoc.get key_hash pruned.minute)) in
    let daily = pop_aged (is_aged daily_age now) (or_nil (Assoc.get key_hash pruned.daily)) in
    let kept : Windows = record pruned {
      minute = Assoc.insert key_hash minute pruned.minute;
      daily = Assoc.insert key_hash daily pruned.daily;
    } in
    if leb minute_limit (length minute)
    then (kept, record { allowed = false; remaining_minute = 0; breach = minute_breach })
    else if leb daily_limit (length daily)
    then (kept, record { allowed = false; remaining_minute = 0; breach = daily_breach })
    else (
      record pruned {
        minute = Assoc.insert key_hash (minute ++ now ∷ []) pruned.minute;
        daily = Assoc.insert key_hash (daily ++ now ∷ []) pruned.daily;
      },
      record {
        allowed = true;
        remaining_minute = minute_limit - suc (length minute);
        breach = no_breach;
      },
    )

abbrev pub clear : Windows → Windows
clear windows = record windows { minute = []; daily = [] }
