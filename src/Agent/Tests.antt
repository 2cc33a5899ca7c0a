-- ===== src/Agent/Tests.antt =====
-- Runs of the drain of processor.rs at concrete inputs.
use sentinel_command.Prelude.{
  ℕ, ◌≡◌, refl, false, List, [], ◌∷◌, Option, none, some, arith, nat_beq, if◌then◌else◌,
}
use sentinel_command.Text.{Text, text_eq, codes}
use sentinel_command.Assoc.{member}
use sentinel_command.Assoc
use sentinel_command.Agent.Drain.{
  Field, Run, DrainOptions, Drain, Listing, Round, Step, Summary, start, process_pending_runs,
  round, fill, consider, start_run, forget_unlisted, finish, pick,
}
use sentinel_command.Agent.Drain.Invariant.{IsValid, active_ids}
use sentinel_command.Agent.Drain.Rounds.{process_pending_runs-IsValid}
use sentinel_command.Agent.Drain.Attempts.{process_pending_runs-once}
use sentinel_command.Agent.Drain.Termination.{process_pending_runs_ends}
use sentinel_command.Agent.Complete.{Completion, complete_with_retry}
use sentinel_command.Agent.Complete.Reports.{RetriedWithin, complete_with_retry_lem}

abbrev options : DrainOptions
options = record { max_concurrent = 4; max_per_org = 2 }

abbrev run_of : Text → Text → Run
run_of id org = record { id = Field.string id; org_id = Field.string org }

-- Three runs of one organisation, and one of another.
abbrev queue : List Run
queue =
    run_of (codes "r1") (codes "a")
    ∷ run_of (codes "r2") (codes "a")
    ∷ run_of (codes "r3") (codes "a")
    ∷ run_of (codes "r4") (codes "b")
    ∷ []

-- The first active run ends with an error.
abbrev first_fails : Round
first_fails = record {
  stopping = false;
  listing = Listing.pending queue;
  done = some (0, some (codes "boom"));
}

abbrev ends_well : Round
ends_well = record { stopping = false; listing = Listing.pending queue; done = some (0, none) }

abbrev after_one : Drain
after_one = record {
  seen = codes "r4" ∷ codes "r3" ∷ codes "r2" ∷ codes "r1" ∷ [];
  finished = [];
  failed = codes "r1" ∷ [];
  in_flight = codes "r4" ∷ codes "r2" ∷ [];
  per_org = (codes "a", 1) ∷ (codes "b", 1) ∷ [];
  active = (codes "r2", codes "a") ∷ (codes "r4", codes "b") ∷ [];
  summary = record {
    fetched = 4;
    processed = 0;
    errored = 1;
    skipped_no_org = 0;
    results = (codes "r1", some (codes "boom")) ∷ [];
    fetched_error = none;
  };
}

-- The third run of the organisation waits.
one_round : process_pending_runs options (first_fails ∷ []) start ≡ Step.continues after_one
unfolding process_pending_runs round fill consider start_run forget_unlisted finish pick member
    Assoc.get Assoc.insert
one_round = refl

process_pending_runs-IsValid_example : IsValid options after_one
process_pending_runs-IsValid_example =
    process_pending_runs-IsValid options (first_fails ∷ []) after_one one_round

-- Two runs of two organisations.
abbrev pair : List Run
pair = run_of (codes "1") (codes "a") ∷ run_of (codes "2") (codes "b") ∷ []

abbrev waits : Round
waits = record { stopping = false; listing = Listing.pending pair; done = none }

abbrev loses : Round
loses = record {
  stopping = false;
  listing = Listing.pending pair;
  done = some (0, some (codes "x"));
}

abbrev started : Drain
started = record {
  seen = codes "2" ∷ codes "1" ∷ [];
  finished = [];
  failed = [];
  in_flight = codes "2" ∷ codes "1" ∷ [];
  per_org = (codes "a", 1) ∷ (codes "b", 1) ∷ [];
  active = (codes "1", codes "a") ∷ (codes "2", codes "b") ∷ [];
  summary = record {
    fetched = 2;
    processed = 0;
    errored = 0;
    skipped_no_org = 0;
    results = [];
    fetched_error = none;
  };
}

abbrev lost : Drain
lost = record started {
  failed = codes "1" ∷ [];
  in_flight = codes "2" ∷ [];
  per_org = (codes "a", 0) ∷ (codes "b", 1) ∷ [];
  active = (codes "2", codes "b") ∷ [];
  summary = record started.summary { errored = 1; results = (codes "1", some (codes "x")) ∷ [] };
}

goes_started : process_pending_runs options (waits ∷ []) start ≡ Step.continues started
unfolding process_pending_runs round fill consider start_run forget_unlisted finish pick member
    Assoc.get Assoc.insert
goes_started = refl

goes_lost : process_pending_runs options (loses ∷ []) started ≡ Step.continues lost
unfolding process_pending_runs round fill consider start_run forget_unlisted finish pick member
    Assoc.get Assoc.insert
goes_lost = refl

goes_on : process_pending_runs options (waits ∷ []) lost ≡ Step.continues lost
unfolding process_pending_runs round fill consider start_run forget_unlisted finish pick member
    Assoc.get Assoc.insert
goes_on = refl

process_pending_runs-once_example : member (codes "1") (active_ids lost.active) ≡ false
process_pending_runs-once_example =
    process_pending_runs-once options (codes "1") (waits ∷ []) (loses ∷ []) (waits ∷ []) started
      lost lost goes_started (unfold member in refl) (unfold member in refl, tt) goes_lost
      (unfold member in refl) (unfold member in refl, tt) goes_on

process_pending_runs_ends_example :
    (summary : Summary) × (process_pending_runs options
        (first_fails ∷ ends_well ∷ ends_well ∷ ends_well ∷ ends_well ∷ [])
        start
      ≡ Step.returned summary)
process_pending_runs_ends_example =
    process_pending_runs_ends options queue
      (first_fails ∷ ends_well ∷ ends_well ∷ ends_well ∷ ends_well ∷ [])
      (
        (refl, λ e. cc e),
        ((refl, λ e. cc e), ((refl, λ e. cc e), ((refl, λ e. cc e), ((refl, λ e. cc e), tt)))),
      )
      (omega arith)

abbrev result : Completion
result = record {
  outcome = codes "no_action";
  summary = codes "nothing moved";
  tool_call_count = 3;
  tool_trace = codes "{}" ∷ [];
  severity = none;
  incident_id = none;
}

complete_with_retry_lem_example :
    RetriedWithin result
      (λ n. if nat_beq n 3 then none else some (codes "502"))
      2000
      (complete_with_retry result (λ n. if nat_beq n 3 then none else some (codes "502")) 2000)
complete_with_retry_lem_example =
    complete_with_retry_lem result (λ n. if nat_beq n 3 then none else some (codes "502")) 2000

-- The clock runs out while the result is reported.
abbrev cut_late : Option ℕ
cut_late = some 5
