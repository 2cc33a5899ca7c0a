-- ===== src/Mail/Lines.antt =====
-- email_worker.rs: the log of a tick, line by line, against the rows that it leaves.
use sentinel_command.Prelude.{
  ℕ, ◌≡◌, refl, sym, ap, ◌∙◌, List, [], ◌∷◌, ◌++◌, Option, none, some, arith, Bool-cases, inl, inr,
  All, leb, suc,
}
use sentinel_command.Interfaces.{◌==◌, ==-refl, nat_eq}
use sentinel_command.Assoc.{Assoc, Distinct}
use sentinel_command.Assoc
use sentinel_command.Text.{Text, is_empty}
use sentinel_command.Mail.{
  OutboxRow, Outbox, reclaim, select_pending, mark_row, Tick, Outcome, was_sent, was_suppressed,
  was_failed, outcome, finalize_row, terminal_of, write_log, LogRow, Worker, process_all,
  run_one_tick,
}
use sentinel_command.Mail.{Status, pending, sending, sent, failed, suppressed}
use sentinel_command.Mail.Laws.{mapped, reclaim-Distinct}
use sentinel_command.Mail.Rows.{
  settled_row, after_tick, is_empty-nil, select-Distinct, get-run_one_tick, select_pending_lem,
}
use sentinel_command.Mail.Accounting.{Accounted, nothing_counted, run_one_tick-Accounted}

-- The line of a row that stands at a status after the tick.
abbrev pub line_at : ℕ → OutboxRow → Status → Option Text → List LogRow
line_at now row status message_id =
    record {
      org_id = row.org_id;
      recipient_email = row.recipient_email;
      kind = row.kind;
      outcome = status;
      resend_message_id = message_id;
      error = row.error;
      timestamp = now;
    }
    ∷ []

-- A row that waits, or that is gone, has no line; only a sent row has the id of a message.
abbrev pub line_by : ℕ → OutboxRow → Status → List LogRow
line_by now row pending = []
line_by now row sending = []
line_by now row sent = line_at now row sent row.resend_message_id
line_by now row failed = line_at now row failed none
line_by now row suppressed = line_at now row suppressed none

abbrev pub final_line : ℕ → Option OutboxRow → List LogRow
final_line now none = []
final_line now (some row) = line_by now row row.status

-- Of each row that was chosen, in their order, the line that the table afterwards asks for.
abbrev pub final_lines : ℕ → Outbox → Outbox → List LogRow
final_lines now rows [] = []
final_lines now rows ((id, read) ∷ chosen) =
    final_line now (Assoc.get id rows) ++ final_lines now rows chosen

append-nil {ℓ} : {A : Type ℓ} (xs : List A) → xs ++ [] ≡ xs
append-nil [] = refl
append-nil (x ∷ xs) = cc (append-nil xs)

append_assoc {ℓ} : {A : Type ℓ} (xs ys zs : List A) → (xs ++ ys) ++ zs ≡ xs ++ (ys ++ zs)
append_assoc [] ys zs = refl
append_assoc (x ∷ xs) ys zs = cc (append_assoc xs ys zs)

write_log-append :
    (max_attempts now : ℕ) (row : OutboxRow) (result : Outcome) (log : List LogRow)
    → write_log now row result (terminal_of max_attempts row.attempts result) log
      ≡ log
        ++ final_line now
            (some (finalize_row max_attempts now row.attempts result (mark_row now row)))
write_log-append max_attempts now row (was_sent message_id) log = refl
write_log-append max_attempts now row (was_suppressed reason) log = refl
write_log-append max_attempts now row (was_failed error) log =
    elim (Bool-cases (leb max_attempts (suc row.attempts))) [
      | inl over ↦ rw over refl
      | inr again ↦ rw again (sym (append-nil log))
    ]

module _ (max_attempts : ℕ) (t : Tick) where
  -- What each chosen row is to be logged as.
  abbrev settled_lines : Outbox → List LogRow
  settled_lines [] = []
  settled_lines ((id, read) ∷ chosen) =
      final_line t.now (some (settled_row max_attempts t id read (mark_row t.now read)))
      ++ settled_lines chosen

  log-process_all :
      (chosen : Outbox) (w : Worker)
      → (process_all max_attempts t chosen w).log ≡ w.log ++ settled_lines chosen
  unfolding process_all
  log-process_all [] w = sym (append-nil w.log)
  log-process_all ((id, read) ∷ chosen) w =
      let line =
        final_line t.now (some (settled_row max_attempts t id read (mark_row t.now read))) in
      log-process_all chosen _
      ∙ ap (λ log. log ++ settled_lines chosen)
          (write_log-append max_attempts t.now read (outcome t id read) w.log)
      ∙ append_assoc w.log line (settled_lines chosen)

  lines_settled :
      (rows part : Outbox)
      → All
          (λ (e : ℕ × OutboxRow).
            Assoc.get e.0 rows ≡ some (settled_row max_attempts t e.0 e.1 (mark_row t.now e.1)))
          part
      → final_lines t.now rows part ≡ settled_lines part
  lines_settled rows [] h = refl
  lines_settled rows ((id, read) ∷ part) h = rw (h.0, lines_settled rows part h.1) refl

found-cons :
    (k : ℕ) (v : OutboxRow) (m part : Outbox)
    → Assoc.get k m ≡ none
    → All (λ (e : ℕ × OutboxRow). Assoc.get e.0 m ≡ some e.1) part
    → All (λ (e : ℕ × OutboxRow). Assoc.get e.0 ((k, v) ∷ m) ≡ some e.1) part
unfolding Assoc.get
found-cons k v m [] d h = tt
found-cons k v m ((id, read) ∷ part) d (here, rest) = (
  elim (Bool-cases (k == id)) [
    | inl hit ↦
        (let same : k ≡ id = ground (arith, hit) in
          absurd (cc (here, d, ap (λ (j : ℕ). Assoc.get j m) same)))
    | inr miss ↦ rw miss here
  ],
  found-cons k v m part d rest,
)

-- Each entry is what a lookup finds.
entries_found :
    (m : Outbox) → Distinct m → All (λ (e : ℕ × OutboxRow). Assoc.get e.0 m ≡ some e.1) m
unfolding Assoc.get
entries_found [] d = tt
entries_found ((k, v) ∷ m) d = (rw (==-refl k) refl, found-cons k v m m d.0 (entries_found m d.1))

All-map {ℓ κ μ} :
    {A : Type ℓ} {P : A → Type κ} {Q : A → Type μ} (f : (x : A) → P x → Q x) (xs : List A)
    → All P xs
    → All Q xs
All-map f [] h = tt
All-map f (x ∷ xs) h = (f x h.0, All-map f xs h.1)

-- The log that a tick leaves, and what its summary says.
pub record Logged (batch : ℕ) (t : Tick) (rows : Outbox) (log : List LogRow) (after : Worker)
    : Type 0 where
  pub lines :
      after.log ≡ log ++ final_lines t.now after.rows (select_pending batch (reclaim t.now rows))
  pub accounted : Accounted log nothing_counted after.log after.summary

module _ (batch max_attempts : ℕ) (t : Tick) where
  tick_settles :
      (rows : Outbox) (log : List LogRow)
      → Distinct rows
      → (e : ℕ × OutboxRow) → Assoc.get e.0 (select_pending batch (reclaim t.now rows)) ≡ some e.1
      → Assoc.get e.0 (run_one_tick batch max_attempts t rows log).rows
        ≡ some (settled_row max_attempts t e.0 e.1 (mark_row t.now e.1))
  tick_settles rows log d (id, read) h =
      let fresh = reclaim t.now rows in
      let row =
        select_pending_lem batch max_attempts t fresh id read (reclaim-Distinct t.now rows d) h in
      get-run_one_tick batch max_attempts t rows log id d
      ∙ ap (λ o. after_tick batch max_attempts t id o (Assoc.get id fresh)) h
      ∙ ap (λ o. mapped (settled_row max_attempts t id read) (mapped (mark_row t.now) o)) row.0

  log-run_one_tick :
      (rows : Outbox) (log : List LogRow)
      → (run_one_tick batch max_attempts t rows log).log
        ≡ log ++ settled_lines max_attempts t (select_pending batch (reclaim t.now rows))
  unfolding run_one_tick
  log-run_one_tick rows log =
      let fresh = reclaim t.now rows in
      let chosen = select_pending batch fresh in
      elim (Bool-cases (is_empty chosen)) [
        | inl idle ↦
            rw (idle, run_one_tick)
              (sym (append-nil log)
                ∙ ap (λ (c : Outbox). log ++ settled_lines max_attempts t c)
                    (sym (is_empty-nil batch max_attempts t chosen idle)))
        | inr busy ↦ rw (busy, run_one_tick) (log-process_all max_attempts t chosen _)
      ]

  -- A tick adds to the log, in the order of the batch, one line for each row of the batch that it
  -- leaves sent, failed or suppressed, with the row's address, its status and its error, and none
  -- for a row that it leaves to be tried again; and the summary's counts are those of these lines.
  pub run_one_tick-Logged :
      (rows : Outbox) (log : List LogRow)
      → Distinct rows
      → Logged batch t rows log (run_one_tick batch max_attempts t rows log)
  run_one_tick-Logged rows log d =
      let after = run_one_tick batch max_attempts t rows log in
      let chosen = select_pending batch (reclaim t.now rows) in
      let found = entries_found chosen (
        select-Distinct batch max_attempts t (reclaim t.now rows)
          (reclaim-Distinct t.now rows d)) in
      record {
        lines =
            log-run_one_tick rows log
            ∙ ap (λ (lines : List LogRow). log ++ lines)
                (sym (
                  lines_settled max_attempts t after.rows chosen
                    (All-map (tick_settles rows log d) chosen found)));
        accounted = run_one_tick-Accounted batch max_attempts t rows log;
      }
