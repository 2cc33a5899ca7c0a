-- ===== src/RateLimit/Tests.antt =====
-- The counters of ratelimit.rs at concrete requests.
use sentinel_command.Prelude.{ℕ, ◌≡◌, List, [], ◌∷◌, arith}
use sentinel_command.Text.{codes}
use sentinel_command.RateLimit.{no_counters}
use sentinel_command.RateLimit.Sweeps.{
  Request, answers, tally_answers, no_tally, answers-eq-tally_answers,
}

abbrev request_at : ℕ → Request
request_at now = record { bucket = codes "org:a"; limit = 1; window = 60_000; now = now }

-- The second request is refused, and the third falls in a new window.
abbrev requests : List Request
requests = request_at 5 ∷ request_at 1_000 ∷ request_at 60_005 ∷ []

answers-eq-tally_answers_example : answers requests no_counters ≡ tally_answers requests no_tally
answers-eq-tally_answers_example =
    answers-eq-tally_answers 0 requests
      (omega arith, omega arith, (omega arith, omega arith, (omega arith, omega arith, tt)))
