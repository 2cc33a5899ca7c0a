-- ===== src/Mail/Tests.antt =====
-- Ticks of the worker of email_worker.rs at concrete tables.
use sentinel_command.Prelude.{ℕ, ◌≡◌, ◌≤◌, refl, true, [], ◌∷◌, none, some, arith}
use sentinel_command.Interfaces.{nat_eq}
use sentinel_command.Text.{codes}
use sentinel_command.Assoc
use sentinel_command.Mail.{Status, OutboxRow, Outbox, Tick, SendResult, run_one_tick}
use sentinel_command.Mail.Settling.{is_terminal, run_ticks, run_one_tick-terminal, run_ticks_settle}
use sentinel_command.Mail.Lines.{Logged, run_one_tick-Logged}

abbrev waiting : OutboxRow
waiting = record {
  org_id = codes "a";
  recipient_email = codes "x@example.com";
  subject = codes "Camera offline";
  body_text = codes "offline";
  body_html = codes "<p>offline</p>";
  kind = codes "camera_offline";
  status = Status.pending;
  attempts = 1;
  last_attempt_at = none;
  sent_at = none;
  resend_message_id = none;
  error = none;
}

abbrev was_sent : OutboxRow
was_sent = record waiting { status = Status.sent; sent_at = some 5 }

abbrev table : Outbox
table = (1, waiting) ∷ (2, was_sent) ∷ []

abbrev table_row : Assoc.get 1 table ≡ some waiting
table_row = unfold Assoc.get in refl

abbrev table_sent : Assoc.get 2 table ≡ some was_sent
table_sent = unfold Assoc.get in refl

-- Every send fails.
abbrev failing : ℕ → Tick
failing now = record { now = now; suppression = λ _. none; send = λ _ _. SendResult.not_sent none }

run_one_tick-terminal_example :
    Assoc.get 2 (run_one_tick 10 3 (failing 100) table []).rows ≡ some was_sent
run_one_tick-terminal_example =
    run_one_tick-terminal 10 3 (failing 100) table [] 2 was_sent
      (unfold Assoc.get in (refl, (refl, tt))) table_sent refl

run_ticks_settle_example :
    (last : OutboxRow) × (Assoc.get 1 (run_ticks 10 3 (failing 100 ∷ failing 101 ∷ []) table [])
      ≡ some last)
    × (is_terminal last.status ≡ true)
    × (last.attempts ≤ 3)
run_ticks_settle_example =
    run_ticks_settle 10 3 (failing 100 ∷ failing 101 ∷ []) table [] 1 waiting
      (unfold Assoc.get in (refl, (refl, tt))) (omega arith) table_row refl (omega arith)
      (omega arith)

run_one_tick-Logged_example :
    Logged 10 (failing 100) table [] (run_one_tick 10 3 (failing 100) table [])
run_one_tick-Logged_example =
    run_one_tick-Logged 10 3 (failing 100) table [] (unfold Assoc.get in (refl, (refl, tt)))
