-- ===== src/Agent/Complete/Reports.antt =====
-- processor.rs: every run that is taken on is reported.
use sentinel_command.Prelude.{
  ℕ, zero, suc, ◌*◌, ◌≤◌, ◌<◌, ◌≡◌, ◌⊎◌, inl, inr, refl, sym, Bool, true, false, ◌&&◌, List, [],
  ◌∷◌, ◌++◌, Option, none, some, length, arith, Option-cases,
}
use sentinel_command.Text.{Text}
use sentinel_command.Agent.Complete.{
  Completion, error_completion, Call, complete, Retried, attempts, complete_loop,
  complete_with_retry, Started, start_failed, gone, claimed, is_lost, process_one_run,
  harness_failure, report_failure,
}

-- The same call again and again.
abbrev pub times : ℕ → Call → List Call
times zero call = []
times (suc n) call = call ∷ times n call

-- The sleeps double.
abbrev pub backoffs : ℕ → ℕ → List ℕ
backoffs zero delay = []
backoffs (suc n) delay = delay ∷ backoffs n (delay * 2)

abbrev pub is_error : Option Text → Bool
is_error none = false
is_error (some error) = true

-- The tries from 1 on, as many as are asked for, all failed.
abbrev pub all_failed : (ℕ → Option Text) → ℕ → Bool
all_failed answer zero = true
all_failed answer (suc n) = is_error (answer (suc n)) && all_failed answer n

-- `tries` tries of a report. Each but the last failed and was followed by a sleep.
pub record RetriedWithin (completion : Completion) (answer : ℕ → Option Text) (backoff : ℕ)
    (r : Retried) : Type 0 where
  pub tries : ℕ
  pub calls : r.calls ≡ times tries (complete completion)
  pub slept_doubling : r.slept ≡ backoffs (length r.slept) backoff
  pub one_less : suc (length r.slept) ≡ tries
  pub bounded : tries ≤ attempts
  pub failed_before : all_failed answer (length r.slept) ≡ true
  pub last : r.error ≡ answer tries
  pub gives_up : (r.error ≡ none) ⊎ (tries ≡ attempts)

-- A report is tried at least once and at most three times, sleeping between tries for delays that
-- double: every try before the last failed, and the last went through or is the third, whose error
-- is then the error of the whole.
pub complete_with_retry_lem :
    (completion : Completion) (answer : ℕ → Option Text) (backoff : ℕ)
    → RetriedWithin completion answer backoff (complete_with_retry completion answer backoff)
unfolding complete_with_retry
complete_with_retry_lem completion answer backoff = elim (Option-cases (answer 1)) [
  | inl ok ↦
      rw (ok, complete_loop)
        (record {
          tries = 1;
          calls = refl;
          slept_doubling = refl;
          one_less = refl;
          bounded = omega arith;
          failed_before = refl;
          last = sym ok;
          gives_up = inl refl;
        })
  | inr (first, e) ↦ elim (Option-cases (answer 2)) [
    | inl ok ↦
        rw (e, complete_loop)
          (rw (ok, complete_loop)
            (record {
              tries = 2;
              calls = refl;
              slept_doubling = refl;
              one_less = refl;
              bounded = omega arith;
              failed_before = rw e refl;
              last = sym ok;
              gives_up = inl refl;
            }))
    | inr (second, f) ↦
        rw (e, complete_loop)
          (rw (f, complete_loop)
            (elim (Option-cases (answer 3)) [
              | inl ok ↦
                  rw (ok, complete_loop)
                    (record {
                      tries = 3;
                      calls = refl;
                      slept_doubling = refl;
                      one_less = refl;
                      bounded = omega arith;
                      failed_before = rw (e, f) refl;
                      last = sym ok;
                      gives_up = inl refl;
                    })
              | inr (third, g) ↦
                  rw (g, complete_loop)
                    (record {
                      tries = 3;
                      calls = refl;
                      slept_doubling = refl;
                      one_less = refl;
                      bounded = omega arith;
                      failed_before = rw (e, f) refl;
                      last = sym g;
                      gives_up = inr refl;
                    })
            ]))
  ]
]

-- The run is not there any more, or another drain has it.
abbrev pub IsLost : Started → Type 0
IsLost (start_failed error) = ⊥
IsLost gone = Unit
IsLost (claimed flag) = is_lost flag ≡ true

-- The last calls, one to three of them, are reports of the completion.
abbrev pub EndsIn : Completion → List Call → Type 0
EndsIn completion calls =
    (before : List Call) × (n : ℕ) × (0 < n)
    × (n ≤ attempts)
    × (calls ≡ before ++ times n (complete completion))

-- Why a run failed: the clock ran out, or its own error.
abbrev pub FailedBy : Option ℕ → Text → Option Text → Text → Type 0
FailedBy cut clock_error error reason =
    ((made : ℕ) × (cut ≡ some made) × (reason ≡ clock_error))
    ⊎ ((cut ≡ none) × (harness_failure error ≡ some reason))

-- What was made of a run, whose own error was `error`: its failure was reported, or it is lost, or
-- its result was reported.
abbrev pub Reported :
    Option ℕ → Text → Started → Completion → Option Text → List Call × Option Text → Type 0
Reported cut clock_error started result error out =
    ((reason : Text) × (out.1 ≡ some reason)
      × FailedBy cut clock_error error reason
      × EndsIn (error_completion reason) out.0)
    ⊎ ((cut ≡ none) × IsLost started × (out ≡ (Call.start ∷ [], none)))
    ⊎ ((cut ≡ none) × (error ≡ none) × (out.1 ≡ none) × EndsIn result out.0)

module _ (clock_error : Text) (connected : Option Text) (result : Completion)
    (answer again : ℕ → Option Text) (backoff : ℕ) where
  abbrev attempt_of : Started → List Call × Option Text
  attempt_of started = process_one_run started connected result answer backoff

  -- How a run ended that the clock did not cut short.
  abbrev Ended : Started → List Call × Option Text → Type 0
  Ended started attempt =
      Reported none clock_error started result attempt.1
        (report_failure attempt.0 (harness_failure attempt.1) again backoff)
