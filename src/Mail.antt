-- ===== src/Mail.antt =====
-- backend-rs/src/email_worker.rs, the drain of the outbox. The table is its rows by id, in the order
-- of the query; what an address, in lower case, is suppressed for and what a send comes to are
-- arguments, and the queries succeed: a failed one ends the tick where it stands. Times are seconds.
pub mod Accounting
pub mod Laws
pub mod Lines
pub mod Rows
pub mod Settling
mod Tests
use sentinel_command.Prelude.{
  ℕ, suc, ◌+◌, ◌-◌, Bool, true, false, not, ◌&&◌, List, [], ◌∷◌, ◌++◌, map, Option, none, some,
  length, take, leb, ltb, nat_beq, if◌then◌else◌,
}
use sentinel_command.Interfaces.{◌==◌, nat_eq}
use sentinel_command.Text.{Text, text_eq, codes, is_empty}
use sentinel_command.Assoc.{Assoc, retain}
use sentinel_command.Assoc

pub data Status : Type 0 where
  pending sending sent failed suppressed : Status

pub record OutboxRow : Type 0 where
  pub org_id : Text
  pub recipient_email : Text
  pub subject : Text
  pub body_text : Text
  pub body_html : Text
  pub kind : Text
  pub status : Status
  pub attempts : ℕ
  pub last_attempt_at : Option ℕ
  pub sent_at : Option ℕ
  pub resend_message_id : Option Text
  pub error : Option Text

abbrev pub Outbox : Type 0
Outbox = Assoc ℕ OutboxRow

abbrev pub is_pending : Status → Bool
is_pending pending = true
is_pending sending = false
is_pending sent = false
is_pending failed = false
is_pending suppressed = false

abbrev pub is_sending : Status → Bool
is_sending pending = false
is_sending sending = true
is_sending sent = false
is_sending failed = false
is_sending suppressed = false

abbrev pub is_failed : Status → Bool
is_failed pending = false
is_failed sending = false
is_failed sent = false
is_failed failed = true
is_failed suppressed = false

pub record LogRow : Type 0 where
  pub org_id : Text
  pub recipient_email : Text
  pub kind : Text
  pub outcome : Status
  pub resend_message_id : Option Text
  pub error : Option Text
  pub timestamp : ℕ

pub record TickSummary : Type 0 where
  pub sent : ℕ
  pub failed : ℕ
  pub suppressed : ℕ
  pub reclaimed : ℕ

abbrev pub sending_reclaim_age : ℕ
sending_reclaim_age = 60

abbrev pub is_before : ℕ → Option ℕ → Bool
is_before cutoff none = false
is_before cutoff (some at) = ltb at cutoff

-- `status = 'sending' AND last_attempt_at < cutoff`.
abbrev pub is_stuck : ℕ → OutboxRow → Bool
is_stuck now row =
    if is_sending row.status
    then is_before (now - sending_reclaim_age) row.last_attempt_at
    else false

abbrev pub reclaim_row : ℕ → OutboxRow → OutboxRow
reclaim_row now row = if is_stuck now row then record row { status = pending } else row

unfoldable pub reclaim : ℕ → Outbox → Outbox
reclaim now [] = []
reclaim now ((id, row) ∷ rows) = (id, reclaim_row now row) ∷ reclaim now rows

unfoldable pub count_stuck : ℕ → Outbox → ℕ
count_stuck now [] = 0
count_stuck now ((id, row) ∷ rows) = (if is_stuck now row then 1 else 0) + count_stuck now rows

-- `SELECT ... WHERE status = 'pending' ... LIMIT`.
unfoldable pub select_pending : ℕ → Outbox → Outbox
select_pending batch rows = take batch (retain (λ _ row. is_pending row.status) rows)

-- `UPDATE ... WHERE id = ...`.
unfoldable pub update : ℕ → (OutboxRow → OutboxRow) → Outbox → Outbox
update id f rows = elim (Assoc.get id rows) [
  | none ↦ rows
  | some row ↦ Assoc.insert id (f row) rows
]

abbrev pub mark_row : ℕ → OutboxRow → OutboxRow
mark_row now row = record row { status = sending; last_attempt_at = some now }

unfoldable pub mark_sending : ℕ → Outbox → Outbox → Outbox
unfolding update
mark_sending now [] rows = rows
mark_sending now ((id, row) ∷ chosen) rows = mark_sending now chosen (update id (mark_row now) rows)

-- What `send_email` came to, and what the suppression list says.
pub data SendResult : Type 0 where
  skipped : SendResult
  ok : Option Text → SendResult
  not_sent : Option Text → SendResult

-- The outcome of a row: `("sent", id, none)`, `("suppressed", none, error)`, `("failed", none, error)`.
pub data Outcome : Type 0 where
  was_sent : Option Text → Outcome
  was_suppressed : Text → Outcome
  was_failed : Option Text → Outcome

abbrev pub outcome_of_send : SendResult → Outcome
outcome_of_send skipped = was_sent none
outcome_of_send (ok message_id) = was_sent message_id
outcome_of_send (not_sent error) = was_failed error

abbrev pub process_row : Option Text → SendResult → Outcome
process_row none result = outcome_of_send result
process_row (some reason) result = was_suppressed (codes "address_suppressed: reason=" ++ reason)

abbrev pub give_up_status : ℕ → ℕ → Status
give_up_status max_attempts attempts = if leb max_attempts attempts then failed else pending

-- The update of `finalize_row`, with the attempts that the row had when it was read.
abbrev pub finalize_row : ℕ → ℕ → ℕ → Outcome → OutboxRow → OutboxRow
finalize_row max_attempts now attempts (was_sent message_id) row = record row {
  attempts = suc attempts;
  status = sent;
  sent_at = some now;
  resend_message_id = message_id;
  error = none;
}
finalize_row max_attempts now attempts (was_suppressed reason) row = record row {
  attempts = suc attempts;
  status = suppressed;
  error = some reason;
}
finalize_row max_attempts now attempts (was_failed error) row = record row {
  attempts = suc attempts;
  status = give_up_status max_attempts (suc attempts);
  error = error;
}

-- The state that `finalize_row` reports.
abbrev pub terminal_of : ℕ → ℕ → Outcome → Status
terminal_of max_attempts attempts (was_sent message_id) = sent
terminal_of max_attempts attempts (was_suppressed reason) = suppressed
terminal_of max_attempts attempts (was_failed error) = give_up_status max_attempts (suc attempts)

abbrev pub status_of : Outcome → Status
status_of (was_sent message_id) = sent
status_of (was_suppressed reason) = suppressed
status_of (was_failed error) = failed

abbrev pub message_id_of : Outcome → Option Text
message_id_of (was_sent message_id) = message_id
message_id_of (was_suppressed reason) = none
message_id_of (was_failed error) = none

abbrev pub error_of : Outcome → Option Text
error_of (was_sent message_id) = none
error_of (was_suppressed reason) = some reason
error_of (was_failed error) = error

abbrev pub log_row : ℕ → OutboxRow → Outcome → LogRow
log_row now row result = record {
  org_id = row.org_id;
  recipient_email = row.recipient_email;
  kind = row.kind;
  outcome = status_of result;
  resend_message_id = message_id_of result;
  error = error_of result;
  timestamp = now;
}

-- `write_log`: nothing for a row in mid-retry.
abbrev pub write_log : ℕ → OutboxRow → Outcome → Status → List LogRow → List LogRow
write_log now row result terminal log =
    if is_failed (status_of result) && is_pending terminal
    then log
    else log ++ log_row now row result ∷ []

abbrev pub tally : Status → TickSummary → TickSummary
tally sent s = record s { sent = suc s.sent }
tally failed s = record s { failed = suc s.failed }
tally suppressed s = record s { suppressed = suc s.suppressed }
tally pending s = s
tally sending s = s

pub record Worker : Type 0 where
  pub rows : Outbox
  pub log : List LogRow
  pub summary : TickSummary

-- What a tick is given: its clock, what each address is suppressed for, what each send comes to.
pub record Tick : Type 0 where
  pub now : ℕ
  pub suppression : Text → Option Text
  pub send : ℕ → OutboxRow → SendResult

abbrev pub outcome : Tick → ℕ → OutboxRow → Outcome
outcome t id row = process_row (t.suppression row.recipient_email) (t.send id row)

unfoldable pub process_all : ℕ → Tick → Outbox → Worker → Worker
unfolding update
process_all max_attempts t [] w = w
process_all max_attempts t ((id, row) ∷ chosen) w =
    let result = outcome t id row in
    let terminal = terminal_of max_attempts row.attempts result in
    process_all max_attempts t chosen (record {
      rows = update id (finalize_row max_attempts t.now row.attempts result) w.rows;
      log = write_log t.now row result terminal w.log;
      summary = tally terminal w.summary;
    })

unfoldable pub run_one_tick : ℕ → ℕ → Tick → Outbox → List LogRow → Worker
unfolding reclaim count_stuck select_pending mark_sending process_all
run_one_tick batch max_attempts t rows log =
    let fresh = reclaim t.now rows in
    let chosen = select_pending batch fresh in
    let summary : TickSummary = record {
      sent = 0;
      failed = 0;
      suppressed = 0;
      reclaimed = count_stuck t.now rows;
    } in
    if is_empty chosen
    then record { rows = fresh; log = log; summary = summary }
    else process_all max_attempts t chosen
        (record { rows = mark_sending t.now chosen fresh; log = log; summary = summary })
