-- ===== src/Mcp/Tests.antt =====
-- The limiter and the scopes of mcp/scope.rs at concrete inputs.
use sentinel_command.Prelude.{ℕ, ◌≡◌, List, [], ◌∷◌, none, some, arith}
use sentinel_command.Text.{codes}
use sentinel_command.Mcp.Limiter.{starting_at, secs}
use sentinel_command.Mcp.Limiter.Budget.{answers-eq-ledger_answers}
use sentinel_command.Mcp.Limiter.Ledger.{answers}
use sentinel_command.Mcp.Limiter.Ledger.{ledger_answers}
use sentinel_command.Mcp.Limiter.Ledger.{Call}
use sentinel_command.Mcp.Scope.Reach.{Reach, compute_allowed_tools-Reach}

abbrev call_at : ℕ → Call
call_at now = record { key_hash = codes "k"; minute_limit = 1; daily_limit = 5; now = now }

-- The second call comes too soon, and the third after the sweep of an hour.
abbrev calls : List Call
calls = call_at (secs 10) ∷ call_at (secs 11) ∷ call_at (secs 4_000) ∷ []

answers-eq-ledger_answers_example : answers calls (starting_at 0) ≡ ledger_answers calls []
answers-eq-ledger_answers_example =
    answers-eq-ledger_answers 0 calls (omega arith, (omega arith, (omega arith, tt)))

compute_allowed_tools-Reach_example :
    Reach (some (codes "ReadOnly")) none (codes "set_camera_recording_policy")
compute_allowed_tools-Reach_example =
    compute_allowed_tools-Reach (some (codes "ReadOnly")) none (codes "set_camera_recording_policy")
