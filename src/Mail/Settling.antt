-- ===== src/Mail/Settling.antt =====
-- email_worker.rs: every row settles, and what has settled stays.
use sentinel_command.Prelude.{
  ℕ, suc, ◌+◌, ◌≤◌, ◌<◌, ◌≡◌, ◌⊎◌, refl, ap, ◌∙◌, Bool, true, false, List, [], ◌∷◌, some, length,
  arith, Option-cases, inl, inr,
}
use sentinel_command.Interfaces.{nat_eq}
use sentinel_command.Assoc.{Assoc, Distinct, retain, keep_if}
use sentinel_command.Assoc
use sentinel_command.Mail.{
  OutboxRow, Outbox, is_pending, reclaim_row, reclaim, select_pending, mark_row, Tick, Outcome,
  was_sent, was_suppressed, was_failed, outcome, finalize_row, LogRow, run_one_tick,
}
use sentinel_command.Mail.{Status, pending, sending, sent, failed, suppressed}
use sentinel_command.Mail.Laws.{mapped, get-reclaim, reclaim-Distinct, length-reclaim}
use sentinel_command.Mail.Rows.{
  settled_row, after_tick, run-kept, get-run_one_tick, select_pending_lem, get-select_pending,
}

abbrev pub is_terminal : Status → Bool
is_terminal pending = false
is_terminal sending = false
is_terminal sent = true
is_terminal failed = true
is_terminal suppressed = true

reclaim_row_other :
    (now : ℕ) (row : OutboxRow) (status : Status)
    → row.status ≡ status
    → (is_terminal status ≡ true) ⊎ (status ≡ pending)
    → reclaim_row now row ≡ row
reclaim_row_other now row pending e h = rw e refl
reclaim_row_other now row sending e h = ground (arith, h)
reclaim_row_other now row sent e h = rw e refl
reclaim_row_other now row failed e h = rw e refl
reclaim_row_other now row suppressed e h = rw e refl

module _ (batch max_attempts : ℕ) where
  -- A row that has settled is not sent again: no tick changes it.
  pub run_one_tick-terminal :
      (t : Tick) (rows : Outbox) (log : List LogRow) (id : ℕ) (row : OutboxRow)
      → Distinct rows
      → Assoc.get id rows ≡ some row
      → is_terminal row.status ≡ true
      → Assoc.get id (run_one_tick batch max_attempts t rows log).rows ≡ some row
  run_one_tick-terminal t rows log id row d e h =
      let fresh = reclaim t.now rows in
      let still : Assoc.get id fresh ≡ some row =
        get-reclaim t.now id rows
        ∙ ap (mapped (reclaim_row t.now)) e
        ∙ ap (λ (r : OutboxRow). some r) (reclaim_row_other t.now row row.status refl (inl h)) in
      elim (Option-cases (Assoc.get id (select_pending batch fresh))) [
        | inl unread ↦
            get-run_one_tick batch max_attempts t rows log id d
            ∙ ap (λ o. after_tick batch max_attempts t id o (Assoc.get id fresh)) unread
            ∙ still
        | inr (read, found) ↦
            let lem =
              select_pending_lem batch max_attempts t fresh id read (reclaim-Distinct t.now rows d)
                found in
            let same : read ≡ row = ground (arith, lem.0, still) in
            absurd (ground (arith, lem.1, ap (λ (r : OutboxRow). r.status) same, h))
      ]

  -- What is left to a pending row after a tick that reads it.
  pub record Progress (row next : OutboxRow) : Type 0 where
    pub counted : next.attempts ≡ suc row.attempts
    pub settles :
        (is_terminal next.status ≡ true)
        ⊎ ((next.status ≡ pending) × (suc row.attempts < max_attempts))

  finalize-Progress :
      (now : ℕ) (result : Outcome) (row marked : OutboxRow)
      → Progress row (finalize_row max_attempts now row.attempts result marked)
  finalize-Progress now (was_sent message_id) row marked = record {
    counted = refl;
    settles = inl refl;
  }
  finalize-Progress now (was_suppressed reason) row marked = record {
    counted = refl;
    settles = inl refl;
  }
  finalize-Progress now (was_failed error) row marked = record {
    counted = refl;
    settles = ground arith;
  }

  tick-Progress :
      (t : Tick) (rows : Outbox) (log : List LogRow) (id : ℕ) (row : OutboxRow)
      → Distinct rows
      → length rows ≤ batch
      → Assoc.get id rows ≡ some row
      → row.status ≡ pending
      → (next : OutboxRow) × (Assoc.get id (run_one_tick batch max_attempts t rows log).rows
          ≡ some next)
        × Progress row next
  tick-Progress t rows log id row d h e p =
      let fresh = reclaim t.now rows in
      let still : Assoc.get id fresh ≡ some row =
        get-reclaim t.now id rows
        ∙ ap (mapped (reclaim_row t.now)) e
        ∙ ap (λ (r : OutboxRow). some r) (reclaim_row_other t.now row row.status refl (inr p)) in
      let read : Assoc.get id (select_pending batch fresh) ≡ some row =
        get-select_pending batch max_attempts t fresh id (reclaim-Distinct t.now rows d)
          (omega (arith, length-reclaim t.now rows, h))
        ∙ ap (keep_if (λ (r : OutboxRow). is_pending r.status)) still
        ∙ ground (arith, p) in
      (
        settled_row max_attempts t id row (mark_row t.now row),
        get-run_one_tick batch max_attempts t rows log id d
            ∙ ap (λ o. after_tick batch max_attempts t id o (Assoc.get id fresh)) read
            ∙ ap (λ o. mapped (settled_row max_attempts t id row) (mapped (mark_row t.now) o))
                still,
        finalize-Progress t.now (outcome t id row) row (mark_row t.now row),
      )

  -- Ticks in turn, the earliest first.
  unfoldable pub run_ticks : List Tick → Outbox → List LogRow → Outbox
  run_ticks [] rows log = rows
  run_ticks (t ∷ ts) rows log =
      let w = run_one_tick batch max_attempts t rows log in run_ticks ts w.rows w.log

  ticks-terminal :
      (ts : List Tick) (rows : Outbox) (log : List LogRow) (id : ℕ) (row : OutboxRow)
      → Distinct rows
      → Assoc.get id rows ≡ some row
      → is_terminal row.status ≡ true
      → Assoc.get id (run_ticks ts rows log) ≡ some row
  unfolding run_ticks
  ticks-terminal [] rows log id row d e h = e
  ticks-terminal (t ∷ ts) rows log id row d e h =
      let w = run_one_tick batch max_attempts t rows log in
      ticks-terminal ts w.rows w.log id row (run-kept batch max_attempts t rows log d).0
        (run_one_tick-terminal t rows log id row d e h) h

  -- A pending row settles: after as many ticks as it has attempts left, each with a batch that
  -- covers the table, it is sent, suppressed or given up, whatever the sends come to, and it was
  -- tried no more often than is allowed.
  pub run_ticks_settle :
      (ts : List Tick) (rows : Outbox) (log : List LogRow) (id : ℕ) (row : OutboxRow)
      → Distinct rows
      → length rows ≤ batch
      → Assoc.get id rows ≡ some row
      → row.status ≡ pending
      → row.attempts < max_attempts
      → max_attempts ≤ row.attempts + length ts
      → (last : OutboxRow) × (Assoc.get id (run_ticks ts rows log) ≡ some last)
        × (is_terminal last.status ≡ true)
        × (last.attempts ≤ max_attempts)
  unfolding run_ticks
  run_ticks_settle [] rows log id row d h e p below enough = absurd (omega arith)
  run_ticks_settle (t ∷ ts) rows log id row d h e p below enough =
      let w = run_one_tick batch max_attempts t rows log in
      let kept = run-kept batch max_attempts t rows log d in
      let step = tick-Progress t rows log id row d h e p in
      elim step.2.settles [
        | inl over ↦ (
          step.0,
          ticks-terminal ts w.rows w.log id step.0 kept.0 step.1 over,
          over,
          omega (arith, step.2.counted),
        )
        | inr (again, left) ↦
            run_ticks_settle ts w.rows w.log id step.0 kept.0 (omega (arith, kept.1, h)) step.1
              again (omega (arith, step.2.counted, left)) (omega (arith, step.2.counted, enough))
      ]
