-- ===== src/Agent/Drain.antt =====
-- backend-rs/src/agent/processor.rs, `process_pending_runs`. A run is what the code reads of its
-- row; what the queue lists, which run ends next and how are what the rounds of the loop are given.
pub mod Invariant
pub mod Picked
pub mod Active
pub mod Rounds
pub mod Attempts
pub mod Termination
pub mod Counts
use sentinel_command.Prelude.{
  ℕ, zero, suc, ◌+◌, ◌-◌, Bool, true, false, not, ◌&&◌, ◌||◌, List, [], ◌∷◌, ◌++◌, map, Option,
  none, some, length, leb, nat_beq, if◌then◌else◌, keep,
}
use sentinel_command.Interfaces.{◌==◌}
use sentinel_command.Text.{Text, text_eq, codes, is_empty}
use sentinel_command.Assoc.{Assoc, member}
use sentinel_command.Assoc

-- A field of the row, a number by its digits.
pub data Field : Type 0 where
  string : Text → Field
  number : Text → Field
  other : Field

pub record Run : Type 0 where
  pub id : Field
  pub org_id : Field

abbrev pub id_of_field : Field → Text
id_of_field (string id) = id
id_of_field (number id) = id
id_of_field other = codes "?"

abbrev pub run_id_of : Run → Text
run_id_of run = id_of_field run.id

abbrev pub org_of_field : Field → Option Text
org_of_field (string org) = if is_empty org then none else some org
org_of_field (number org) = some org
org_of_field other = none

abbrev pub org_of : Run → Option Text
org_of run = org_of_field run.org_id

-- The two caps; the other options go to the queue, to the report and to the clocks.
pub record DrainOptions : Type 0 where
  pub max_concurrent : ℕ
  pub max_per_org : ℕ

-- `.max(1)`.
abbrev pub at_least_one : ℕ → ℕ
at_least_one zero = 1
at_least_one (suc n) = suc n

pub record Summary : Type 0 where
  pub fetched : ℕ
  pub processed : ℕ
  pub errored : ℕ
  pub skipped_no_org : ℕ
  pub results : List (Text × Option Text)
  pub fetched_error : Option Text

-- The locals of the loop; an active run is its id and its organisation.
pub record Drain : Type 0 where
  pub seen : List Text
  pub finished : List Text
  pub failed : List Text
  pub in_flight : List Text
  pub per_org : Assoc Text ℕ
  pub active : List (Text × Text)
  pub summary : Summary

abbrev pub start : Drain
start = record {
  seen = [];
  finished = [];
  failed = [];
  in_flight = [];
  per_org = [];
  active = [];
  summary = record {
    fetched = 0;
    processed = 0;
    errored = 0;
    skipped_no_org = 0;
    results = [];
    fetched_error = none;
  };
}

abbrev pub or_no_runs : Option ℕ → ℕ
or_no_runs none = 0
or_no_runs (some n) = n

-- `HashSet::insert` of what may be in the set, and `HashSet::remove`.
abbrev pub set_insert : Text → List Text → List Text
set_insert x xs = if member x xs then xs else x ∷ xs

abbrev pub set_remove : Text → List Text → List Text
set_remove x xs = keep (λ y. not (y == x)) xs

-- The three `retain`s after a listing.
unfoldable pub forget_unlisted : List Text → Drain → Drain
forget_unlisted listed d = record d {
  finished = keep (λ id. member id listed) d.finished;
  failed = keep (λ id. member id listed) d.failed;
  seen = keep (λ id. member id listed || member id d.in_flight) d.seen;
}

-- A run at first sight is counted.
abbrev pub note_seen : Text → Drain → Drain
note_seen run_id d = record d {
  seen = set_insert run_id d.seen;
  summary =
      if member run_id d.seen
      then d.summary
      else record d.summary { fetched = suc d.summary.fetched };
}

abbrev pub note_no_org : Bool → Drain → Drain
note_no_org known d =
    if known
    then d
    else record d { summary = record d.summary { skipped_no_org = suc d.summary.skipped_no_org } }

unfoldable pub start_run : DrainOptions → Text → Text → Drain → Drain
start_run options run_id org d =
    let running = or_no_runs (Assoc.get org d.per_org) in
    if leb (at_least_one options.max_per_org) running
    then record d { per_org = Assoc.insert org running d.per_org }
    else record d {
      per_org = Assoc.insert org (suc running) d.per_org;
      in_flight = set_insert run_id d.in_flight;
      active = d.active ++ (run_id, org) ∷ [];
    }

abbrev pub is_settled : Text → Drain → Bool
is_settled run_id d = member run_id d.failed || member run_id d.finished

-- The body of the loop over the listing, past its `break`.
unfoldable pub consider : DrainOptions → Run → Drain → Drain
unfolding start_run
consider options run d =
    let run_id = run_id_of run in
    if is_settled run_id d || member run_id d.in_flight then d else elim (org_of run) [
      | none ↦ note_no_org (member run_id d.seen) (note_seen run_id d)
      | some org ↦ start_run options run_id org (note_seen run_id d)
    ]

unfoldable pub fill : DrainOptions → List Run → Drain → Drain
fill options [] d = d
fill options (run ∷ runs) d = elim (leb (at_least_one options.max_concurrent) (length d.active)) [
  | true ↦ d
  | false ↦ fill options runs (consider options run d)
]

-- What `list_pending` answered.
pub data Listing : Type 0 where
  pending : List Run → Listing
  fetch_failed : Text → Listing

abbrev pub on_listing : DrainOptions → Listing → Drain → Drain
on_listing options (pending runs) d = fill options runs (forget_unlisted (map run_id_of runs) d)
on_listing options (fetch_failed error) d = record d {
  summary = record d.summary { errored = suc d.summary.errored; fetched_error = some error };
}

-- The active run at a place, or the last one if there are fewer, and the others.
unfoldable pub pick : ℕ → List (Text × Text) → Option ((Text × Text) × List (Text × Text))
pick n [] = none
pick zero (run ∷ runs) = some (run, runs)
pick (suc n) (run ∷ runs) = elim (pick n runs) [
  | none ↦ some (run, runs)
  | some (chosen, rest) ↦ some (chosen, run ∷ rest)
]

-- `Ok(())` or the reason of a failure.
abbrev pub settle : Text → Option Text → Drain → Drain
settle run_id none d = record d {
  finished = set_insert run_id d.finished;
  summary = record d.summary {
    processed = suc d.summary.processed;
    results = d.summary.results ++ (run_id, none) ∷ [];
  };
}
settle run_id (some reason) d = record d {
  failed = set_insert run_id d.failed;
  summary = record d.summary {
    errored = suc d.summary.errored;
    results = d.summary.results ++ (run_id, some reason) ∷ [];
  };
}

-- `if let Some(count) = per_org.get_mut(&org) { *count = count.saturating_sub(1); }`.
abbrev pub release_org : Text → Assoc Text ℕ → Assoc Text ℕ
release_org org per_org = elim (Assoc.get org per_org) [
  | none ↦ per_org
  | some count ↦ Assoc.insert org (count - 1) per_org
]

-- An active run ends. The futures give them up in any order.
unfoldable pub finish : ℕ → Option Text → Drain → Drain
unfolding pick
finish n outcome d = elim (pick n d.active) [
  | none ↦ d
  | some ((run_id, org), rest) ↦ settle run_id outcome (record d {
    active = rest;
    in_flight = set_remove run_id d.in_flight;
    per_org = release_org org d.per_org;
  })
]

-- What one round of the loop meets: the stop flag, the listing, the run that ends with its
-- outcome, or `none` for the tick of the clock.
pub record Round : Type 0 where
  pub stopping : Bool
  pub listing : Listing
  pub done : Option (ℕ × Option Text)

pub data Step : Type 0 where
  returned : Summary → Step
  continues : Drain → Step

abbrev pub refill : DrainOptions → Round → Drain → Drain
refill options r d =
    if not r.stopping && not (leb (at_least_one options.max_concurrent) (length d.active))
    then on_listing options r.listing d
    else d

abbrev pub await_done : Option (ℕ × Option Text) → Drain → Drain
await_done none d = d
await_done (some (n, outcome)) d = finish n outcome d

unfoldable pub round : DrainOptions → Round → Drain → Step
unfolding fill forget_unlisted finish
round options r d =
    let filled = refill options r d in
    if is_empty filled.active then returned filled.summary else continues (await_done r.done filled)

unfoldable pub process_pending_runs : DrainOptions → List Round → Drain → Step
unfolding round
process_pending_runs options [] d = continues d
process_pending_runs options (r ∷ rounds) d = elim (round options r d) [
  | returned summary ↦ returned summary
  | continues next ↦ process_pending_runs options rounds next
]
