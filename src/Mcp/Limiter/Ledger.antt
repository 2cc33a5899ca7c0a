-- ===== src/Mcp/Limiter/Ledger.antt =====
-- scope.rs, `RateLimiter`: a ledger of the calls that were let through, and what it answers.
use sentinel_command.Prelude.{ℕ, suc, ◌-◌, ◌≤◌, true, false, List, [], ◌∷◌, leb, if◌then◌else◌}
use sentinel_command.Interfaces.{◌==◌}
use sentinel_command.Text.{Text, text_eq}
use sentinel_command.Assoc
use sentinel_command.Window.{count}
use sentinel_command.Mcp.Limiter.{
  daily_age, minute_age, Windows, starting_at, check_at, Verdict, no_breach, minute_breach,
  daily_breach,
}
use sentinel_command.Mcp.Limiter.Keeping.{recent, nil-Keeps}
use sentinel_command.Mcp.Limiter.Pruning.{Tracks}

pub record Call : Type 0 where
  pub key_hash : Text
  pub minute_limit : ℕ
  pub daily_limit : ℕ
  pub now : ℕ

-- The calls that were let through, with their keys, the last one first.
abbrev pub Ledger : Type 0
Ledger = List (Text × ℕ)

abbrev pub instants_of : Text → Ledger → List ℕ
instants_of key_hash [] = []
instants_of key_hash ((k, at) ∷ ledger) =
    let rest = instants_of key_hash ledger in if k == key_hash then at ∷ rest else rest

-- The verdict on a key with so many calls in the last minute and in the last day.
abbrev pub verdict_on : ℕ → ℕ → ℕ → ℕ → Verdict
verdict_on minute_limit daily_limit minute daily =
    if leb minute_limit minute
    then record { allowed = false; remaining_minute = 0; breach = minute_breach }
    else if leb daily_limit daily
    then record { allowed = false; remaining_minute = 0; breach = daily_breach }
    else record { allowed = true; remaining_minute = minute_limit - suc minute; breach = no_breach }

abbrev pub ledger_verdict : Call → Ledger → Verdict
ledger_verdict c ledger =
    verdict_on c.minute_limit c.daily_limit
      (count (recent minute_age c.now) (instants_of c.key_hash ledger))
      (count (recent daily_age c.now) (instants_of c.key_hash ledger))

abbrev pub enter : Call → Ledger → Ledger
enter c ledger = if (ledger_verdict c ledger).allowed then (c.key_hash, c.now) ∷ ledger else ledger

-- The answers to calls in turn, by the ledger and by the limiter.
unfoldable pub ledger_answers : List Call → Ledger → List Verdict
ledger_answers [] ledger = []
ledger_answers (c ∷ calls) ledger = ledger_verdict c ledger ∷ ledger_answers calls (enter c ledger)

unfoldable pub answers : List Call → Windows → List Verdict
unfolding check_at
answers [] windows = []
answers (c ∷ calls) windows =
    let out = check_at c.key_hash c.minute_limit c.daily_limit c.now windows in
    out.1 ∷ answers calls out.0

-- The clock does not go back.
abbrev pub Chronological : ℕ → List Call → Type 0
Chronological t [] = Unit {0}
Chronological t (c ∷ calls) = (t ≤ c.now) × Chronological c.now calls

-- The limiter knows of each key what the ledger does, as far as it still matters.
abbrev pub Knows : ℕ → Ledger → Windows → Type 0
Knows t ledger windows = (key_hash : Text) → Tracks t key_hash (instants_of key_hash ledger) windows

pub starting_at-Knows : (t : ℕ) → Knows t [] (starting_at t)
unfolding Assoc.get
starting_at-Knows t key_hash = record {
  minute_distinct = tt;
  daily_distinct = tt;
  minute_keeps = nil-Keeps minute_age t;
  daily_keeps = nil-Keeps daily_age t;
}
