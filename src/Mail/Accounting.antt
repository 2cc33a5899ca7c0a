-- ===== src/Mail/Accounting.antt =====
-- email_worker.rs: the summary of a tick and the lines of its log.
use sentinel_command.Prelude.{
  ℕ, suc, ◌+◌, ◌≡◌, refl, List, [], ◌∷◌, length, take, arith, Bool-cases, inl, inr, ◌++◌, leb,
}
use sentinel_command.Interfaces.{nat_eq}
use sentinel_command.Assoc.{retain}
use sentinel_command.Text.{is_empty}
use sentinel_command.Mail.{
  OutboxRow, Outbox, is_pending, reclaim, select_pending, update, Tick, Outcome, was_sent,
  was_suppressed, was_failed, outcome, finalize_row, terminal_of, write_log, log_row, tally, LogRow,
  TickSummary, Worker, process_all, run_one_tick,
}
use sentinel_command.Mail.{Status, sent, failed, suppressed}

-- How many lines of the log have each outcome.
abbrev pub is_outcome : Status → Status → ℕ
is_outcome sent sent = 1
is_outcome failed failed = 1
is_outcome suppressed suppressed = 1
is_outcome wanted status = 0

abbrev pub count_log : Status → List LogRow → ℕ
count_log wanted [] = 0
count_log wanted (row ∷ log) = is_outcome wanted row.outcome + count_log wanted log

count_log-append :
    (wanted : Status) (log : List LogRow) (row : LogRow)
    → count_log wanted (log ++ row ∷ []) ≡ count_log wanted log + is_outcome wanted row.outcome
count_log-append wanted [] row = omega arith
count_log-append wanted (r ∷ log) row = omega (arith, count_log-append wanted log row)

-- The log has the lines that it had and one for each row that the summary counts.
pub record Accounted (before : List LogRow) (base : TickSummary) (log : List LogRow)
    (s : TickSummary) : Type 0 where
  pub sent_lines : count_log sent log + base.sent ≡ count_log sent before + s.sent
  pub failed_lines : count_log failed log + base.failed ≡ count_log failed before + s.failed
  pub suppressed_lines :
      count_log suppressed log + base.suppressed ≡ count_log suppressed before + s.suppressed
  pub all_lines :
      length log + (base.sent + base.failed + base.suppressed)
      ≡ length before + (s.sent + s.failed + s.suppressed)

length-append_one {ℓ} : {A : Type ℓ} (xs : List A) (x : A) → length (xs ++ x ∷ []) ≡ suc (length xs)
length-append_one [] x = refl
length-append_one (y ∷ xs) x = omega (arith, length-append_one xs x)

write_log-Accounted :
    (max_attempts now : ℕ) (row : OutboxRow) (result : Outcome) (log : List LogRow)
    (s : TickSummary)
    → let terminal = terminal_of max_attempts row.attempts result in
      Accounted log s (write_log now row result terminal log) (tally terminal s)
write_log-Accounted max_attempts now row (was_sent message_id) log s =
    (let line = log_row now row (was_sent message_id) in
      record {
        sent_lines = omega (arith, count_log-append sent log line);
        failed_lines = omega (arith, count_log-append failed log line);
        suppressed_lines = omega (arith, count_log-append suppressed log line);
        all_lines = omega (arith, length-append_one log line);
      })
write_log-Accounted max_attempts now row (was_suppressed reason) log s =
    (let line = log_row now row (was_suppressed reason) in
      record {
        sent_lines = omega (arith, count_log-append sent log line);
        failed_lines = omega (arith, count_log-append failed log line);
        suppressed_lines = omega (arith, count_log-append suppressed log line);
        all_lines = omega (arith, length-append_one log line);
      })
write_log-Accounted max_attempts now row (was_failed error) log s =
    elim (Bool-cases (leb max_attempts (suc row.attempts))) [
      | inl over ↦ rw over (
          let line = log_row now row (was_failed error) in
          record {
            sent_lines = omega (arith, count_log-append sent log line);
            failed_lines = omega (arith, count_log-append failed log line);
            suppressed_lines = omega (arith, count_log-append suppressed log line);
            all_lines = omega (arith, length-append_one log line);
          })
      | inr again ↦ rw again (record {
        sent_lines = refl;
        failed_lines = refl;
        suppressed_lines = refl;
        all_lines = refl;
      })
    ]

process_all-Accounted :
    (max_attempts : ℕ) (t : Tick) (chosen : Outbox) (w : Worker)
    → let after = process_all max_attempts t chosen w in
      Accounted w.log w.summary after.log after.summary
unfolding process_all
process_all-Accounted max_attempts t [] w = record {
  sent_lines = refl;
  failed_lines = refl;
  suppressed_lines = refl;
  all_lines = refl;
}
process_all-Accounted max_attempts t ((id, row) ∷ chosen) w =
    let result = outcome t id row in
    let terminal = terminal_of max_attempts row.attempts result in
    let here = write_log-Accounted max_attempts t.now row result w.log w.summary in
    let rest = process_all-Accounted max_attempts t chosen (record {
      rows = update id (finalize_row max_attempts t.now row.attempts result) w.rows;
      log = write_log t.now row result terminal w.log;
      summary = tally terminal w.summary;
    }) in
    record {
      sent_lines = omega (arith, here.sent_lines, rest.sent_lines);
      failed_lines = omega (arith, here.failed_lines, rest.failed_lines);
      suppressed_lines = omega (arith, here.suppressed_lines, rest.suppressed_lines);
      all_lines = omega (arith, here.all_lines, rest.all_lines);
    }

abbrev pub nothing_counted : TickSummary
nothing_counted = record { sent = 0; failed = 0; suppressed = 0; reclaimed = 0 }

pub run_one_tick-Accounted :
    (batch max_attempts : ℕ) (t : Tick) (rows : Outbox) (log : List LogRow)
    → let after = run_one_tick batch max_attempts t rows log in
      Accounted log nothing_counted after.log after.summary
unfolding run_one_tick select_pending
run_one_tick-Accounted batch max_attempts t rows log =
    let fresh = reclaim t.now rows in
    let chosen : Outbox = take batch (retain (λ _ row. is_pending row.status) fresh) in
    elim (Bool-cases (is_empty chosen)) [
      | inl idle ↦
          rw (idle, run_one_tick)
            (record {
              sent_lines = refl;
              failed_lines = refl;
              suppressed_lines = refl;
              all_lines = refl;
            })
      | inr busy ↦
          rw (busy, run_one_tick)
            (let all = process_all-Accounted max_attempts t chosen _ in
              record {
                sent_lines = all.sent_lines;
                failed_lines = all.failed_lines;
                suppressed_lines = all.suppressed_lines;
                all_lines = all.all_lines;
              })
    ]
