-- ===== src/Agent/Complete.antt =====
-- backend-rs/src/agent/processor.rs, `run_with_timeout` down to `complete_with_retry`: one run, from
-- its claim to the report. What the queue, the tools and the model answer are arguments, and the
-- calls that are made are listed; the texts of the errors are the collaborators'.
pub mod Reports
use sentinel_command.Prelude.{
  ℕ, zero, suc, ◌+◌, ◌*◌, Bool, true, false, List, [], ◌∷◌, ◌++◌, Option, none, some, take,
}
use sentinel_command.Prelude.Int.{ℤ}
use sentinel_command.Text.{Text, codes}

-- The terminal result of a run; of each entry of the trace its JSON.
pub record Completion : Type 0 where
  pub outcome : Text
  pub summary : Text
  pub tool_call_count : ℕ
  pub tool_trace : List Text
  pub severity : Option Text
  pub incident_id : Option ℤ

-- `Completion::error`.
abbrev pub error_completion : Text → Completion
error_completion summary = record {
  outcome = codes "error";
  summary = summary;
  tool_call_count = 0;
  tool_trace = [];
  severity = none;
  incident_id = none;
}

pub data Call : Type 0 where
  start connect investigate disconnect : Call
  complete : Completion → Call

-- How a series of `/complete` calls went: the calls, the sleeps between them, and the error.
pub record Retried : Type 0 where
  pub calls : List Call
  pub slept : List ℕ
  pub error : Option Text

abbrev pub attempts : ℕ
attempts = 3

-- The attempts left, the number of the next one, and the delay before the one after it.
unfoldable pub complete_loop : Completion → (ℕ → Option Text) → ℕ → ℕ → ℕ → Retried
complete_loop completion answer zero attempt delay = record { calls = []; slept = []; error = none }
complete_loop completion answer (suc left) attempt delay = elim (answer attempt) [
  | none ↦ record { calls = complete completion ∷ []; slept = []; error = none }
  | some error ↦ elim left [
    | zero ↦ record { calls = complete completion ∷ []; slept = []; error = some error }
    | suc more ↦
        (let rest = complete_loop completion answer left (suc attempt) (delay * 2) in
          record {
            calls = complete completion ∷ rest.calls;
            slept = delay ∷ rest.slept;
            error = rest.error;
          })
  ]
]

-- `answer` says of each attempt, from 1, whether it failed.
unfoldable pub complete_with_retry : Completion → (ℕ → Option Text) → ℕ → Retried
unfolding complete_loop
complete_with_retry completion answer backoff = complete_loop completion answer attempts 1 backoff

-- What `/start` answered: an error, no such run, or the row with its `claimed` field.
pub data Started : Type 0 where
  start_failed : Text → Started
  gone : Started
  claimed : Option Bool → Started

abbrev pub is_lost : Option Bool → Bool
is_lost none = false
is_lost (some true) = false
is_lost (some false) = true

-- `process_one_run`: its calls and its error. `result` is what `run_agent` comes to.
abbrev pub process_one_run :
    Started → Option Text → Completion → (ℕ → Option Text) → ℕ → List Call × Option Text
process_one_run (start_failed error) connected result answer backoff = (start ∷ [], some error)
process_one_run gone connected result answer backoff = (start ∷ [], none)
process_one_run (claimed flag) connected result answer backoff = elim (is_lost flag) [
  | true ↦ (start ∷ [], none)
  | false ↦ elim connected [
    | some error ↦ (start ∷ connect ∷ [], some error)
    | none ↦
        (let report = complete_with_retry result answer backoff in
          (start ∷ connect ∷ investigate ∷ disconnect ∷ report.calls, report.error))
  ]
]

abbrev pub harness_failure : Option Text → Option Text
harness_failure none = none
harness_failure (some reason) = some (codes "Agent harness failure: " ++ reason)

-- Best effort: the error of the second report is only logged.
abbrev pub report_failure :
    List Call → Option Text → (ℕ → Option Text) → ℕ → List Call × Option Text
report_failure calls none answer backoff = (calls, none)
report_failure calls (some reason) answer backoff =
    (calls ++ (complete_with_retry (error_completion reason) answer backoff).calls, some reason)

-- `run_with_timeout`. `cut` is the number of calls made when the clock ran out, if it did, and
-- `clock_error` the text that says so; `again` answers the report of the failure.
unfoldable pub run_with_timeout :
    Option ℕ
    → Text
    → Started
    → Option Text
    → Completion
    → (ℕ → Option Text)
    → (ℕ → Option Text)
    → ℕ
    → List Call × Option Text
unfolding complete_with_retry
run_with_timeout cut clock_error started connected result answer again backoff =
    let attempt = process_one_run started connected result answer backoff in
    elim cut [
      | none ↦ report_failure attempt.0 (harness_failure attempt.1) again backoff
      | some made ↦ report_failure (take made attempt.0) (some clock_error) again backoff
    ]
