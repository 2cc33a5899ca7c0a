-- ===== src/Mail/Rows.antt =====
-- email_worker.rs, `run_one_tick`: what a tick does to one row.
use sentinel_command.Prelude.{
  ℕ, ◌≤◌, ◌≡◌, refl, sym, ap, ◌∙◌, true, List, [], ◌∷◌, Option, none, some, length, take, arith,
  Bool-cases, Option-cases, inl, inr, if◌then◌else◌,
}
use sentinel_command.Interfaces.{◌==◌, nat_eq}
use sentinel_command.Assoc.{Assoc, Distinct, retain, keep_if}
use sentinel_command.Text.{is_empty}
use sentinel_command.Assoc
use sentinel_command.Assoc.Laws as AssocLaws
use sentinel_command.Mail.{
  OutboxRow, Outbox, is_pending, reclaim, select_pending, update, mark_row, mark_sending, Tick,
  outcome, finalize_row, LogRow, Worker, process_all, run_one_tick,
}
use sentinel_command.Mail.Laws.{
  mapped, get-take, take-Distinct, take_all, length-retain-le, get-update, update-Distinct,
  length-update, reclaim-Distinct, length-reclaim, get-mark_sending,
}

module _ (max_attempts : ℕ) (t : Tick) where
  -- A row that was chosen, at its outcome.
  abbrev pub settled_row : ℕ → OutboxRow → OutboxRow → OutboxRow
  settled_row id read row = finalize_row max_attempts t.now read.attempts (outcome t id read) row

  abbrev pub after_process : ℕ → Option OutboxRow → Option OutboxRow → Option OutboxRow
  after_process id none row = row
  after_process id (some read) row = mapped (settled_row id read) row

  pub get-process_all :
      (chosen : Outbox) (w : Worker) (id : ℕ)
      → Distinct chosen
      → Assoc.get id (process_all max_attempts t chosen w).rows
        ≡ after_process id (Assoc.get id chosen) (Assoc.get id w.rows)
  unfolding process_all Assoc.get
  get-process_all [] w id d = refl
  get-process_all ((j, read) ∷ chosen) w id d =
      let settle = finalize_row max_attempts t.now read.attempts (outcome t j read) in
      get-process_all chosen _ id d.1
      ∙ ap (after_process id (Assoc.get id chosen)) (get-update j id settle w.rows)
      ∙ (elim (Bool-cases (j == id)) [
        | inl hit ↦
            let same : j ≡ id = ground (arith, hit) in
            let past : Assoc.get id chosen ≡ none =
              ap (λ (k : ℕ). Assoc.get k chosen) (sym same) ∙ d.0 in
            rw hit
              (rw past (ap (λ (k : ℕ). mapped (settled_row k read) (Assoc.get id w.rows)) same))
        | inr miss ↦ rw miss refl
      ])

  pub process_all-kept :
      (chosen : Outbox) (w : Worker)
      → (Distinct w.rows → Distinct (process_all max_attempts t chosen w).rows)
        × (length (process_all max_attempts t chosen w).rows ≡ length w.rows)
  unfolding process_all
  process_all-kept [] w = (λ d. d, refl)
  process_all-kept ((j, read) ∷ chosen) w =
      let settle = finalize_row max_attempts t.now read.attempts (outcome t j read) in
      let rest = process_all-kept chosen _ in
      (λ d. rest.0 (update-Distinct j settle w.rows d), rest.1 ∙ length-update j settle w.rows)

mark_sending-kept :
    (now : ℕ) (chosen rows : Outbox)
    → (Distinct rows → Distinct (mark_sending now chosen rows))
      × (length (mark_sending now chosen rows) ≡ length rows)
unfolding mark_sending
mark_sending-kept now [] rows = (λ d. d, refl)
mark_sending-kept now ((j, row) ∷ chosen) rows =
    let rest = mark_sending-kept now chosen (update j (mark_row now) rows) in
    (
      λ d. rest.0 (update-Distinct j (mark_row now) rows d),
      rest.1 ∙ length-update j (mark_row now) rows,
    )

module _ (batch max_attempts : ℕ) (t : Tick) where
  -- The row after a tick, given what the batch read of it.
  abbrev pub after_tick : ℕ → Option OutboxRow → Option OutboxRow → Option OutboxRow
  after_tick id read row =
      after_process max_attempts t id read
        (elim read [ none ↦ row | some r ↦ mapped (mark_row t.now) row ])

  contains_read :
      (id : ℕ) (chosen : Outbox) (row : Option OutboxRow)
      → (if Assoc.contains id chosen then mapped (mark_row t.now) row else row)
        ≡ (elim (Assoc.get id chosen) [ none ↦ row | some r ↦ mapped (mark_row t.now) row ])
  contains_read id chosen row = elim (Option-cases (Assoc.get id chosen)) [
    | inl e ↦ rw (AssocLaws.contains-eq-get id chosen) (rw e refl)
    | inr (r, e) ↦ rw (AssocLaws.contains-eq-get id chosen) (rw e refl)
  ]

  pub is_empty-nil : (chosen : Outbox) → is_empty chosen ≡ true → chosen ≡ []
  is_empty-nil [] h = refl
  is_empty-nil (x ∷ chosen) h = cc

  pub select-Distinct : (rows : Outbox) → Distinct rows → Distinct (select_pending batch rows)
  unfolding select_pending
  select-Distinct rows d =
      take-Distinct batch (retain (λ _ row. is_pending row.status) rows)
        (AssocLaws.retain-Distinct (λ _ row. is_pending row.status) rows d)

  pub run-kept :
      (rows : Outbox) (log : List LogRow)
      → Distinct rows
      → Distinct (run_one_tick batch max_attempts t rows log).rows
        × (length (run_one_tick batch max_attempts t rows log).rows ≡ length rows)
  unfolding run_one_tick select_pending
  run-kept rows log d =
      let fresh = reclaim t.now rows in
      let d₁ = reclaim-Distinct t.now rows d in
      let chosen : Outbox = take batch (retain (λ _ row. is_pending row.status) fresh) in
      let marks = mark_sending-kept t.now chosen fresh in
      elim (Bool-cases (is_empty chosen)) [
        | inl idle ↦ rw (idle, run_one_tick) (d₁, length-reclaim t.now rows)
        | inr busy ↦
            rw (busy, run_one_tick)
              (let all = process_all-kept max_attempts t chosen _ in
                (all.0 (marks.0 d₁), all.1 ∙ marks.1 ∙ length-reclaim t.now rows))
      ]

  pub get-run_one_tick :
      (rows : Outbox) (log : List LogRow) (id : ℕ)
      → Distinct rows
      → let fresh = reclaim t.now rows in
        Assoc.get id (run_one_tick batch max_attempts t rows log).rows
        ≡ after_tick id (Assoc.get id (select_pending batch fresh)) (Assoc.get id fresh)
  unfolding run_one_tick select_pending Assoc.get
  get-run_one_tick rows log id d =
      let fresh = reclaim t.now rows in
      let chosen : Outbox = take batch (retain (λ _ row. is_pending row.status) fresh) in
      elim (Bool-cases (is_empty chosen)) [
        | inl idle ↦
            rw (idle, run_one_tick)
              (ap (λ (c : Outbox). after_tick id (Assoc.get id c) (Assoc.get id fresh))
                  (sym (is_empty-nil chosen idle))
                ∙ refl)
        | inr busy ↦
            rw (busy, run_one_tick)
              (get-process_all max_attempts t chosen _ id
                  (select-Distinct fresh (reclaim-Distinct t.now rows d))
                ∙ ap (after_process max_attempts t id (Assoc.get id chosen)) (
                    get-mark_sending t.now id chosen fresh
                    ∙ contains_read id chosen (Assoc.get id fresh)))
      ]

  -- What the batch reads is a pending row of the table.
  pub select_pending_lem :
      (rows : Outbox) (id : ℕ) (row : OutboxRow)
      → Distinct rows
      → Assoc.get id (select_pending batch rows) ≡ some row
      → (Assoc.get id rows ≡ some row) × (is_pending row.status ≡ true)
  unfolding select_pending
  select_pending_lem rows id row d h =
      let found =
        sym (AssocLaws.get-retain (λ _ r. is_pending r.status) id rows d)
        ∙ get-take batch id row (retain (λ _ r. is_pending r.status) rows) h in
      elim (Option-cases (Assoc.get id rows)) [
        | inl e ↦
            absurd (cc (ap (keep_if (λ (r : OutboxRow). is_pending r.status)) (sym e) ∙ found))
        | inr (r, e) ↦
            let kept : keep_if (λ (x : OutboxRow). is_pending x.status) (some r) ≡ some row =
              ap (keep_if (λ (x : OutboxRow). is_pending x.status)) (sym e) ∙ found in
            elim (Bool-cases (is_pending r.status)) [
              | inl p ↦
                  let same : r ≡ row = ground (arith, kept, p) in
                  (
                    e ∙ ap (λ (x : OutboxRow). some x) same,
                    ap (λ (x : OutboxRow). is_pending x.status) (sym same) ∙ p,
                  )
              | inr q ↦ absurd (ground (arith, kept, q))
            ]
      ]

  -- A batch as large as the table reads every pending row.
  pub get-select_pending :
      (rows : Outbox) (id : ℕ)
      → Distinct rows
      → length rows ≤ batch
      → Assoc.get id (select_pending batch rows)
        ≡ keep_if (λ row. is_pending row.status) (Assoc.get id rows)
  unfolding select_pending
  get-select_pending rows id d h =
      ap (λ (m : Outbox). Assoc.get id m)
        (take_all batch (retain (λ _ r. is_pending r.status) rows)
          (omega (arith, length-retain-le (λ (_ : ℕ) (r : OutboxRow). is_pending r.status) rows)))
      ∙ AssocLaws.get-retain (λ _ r. is_pending r.status) id rows d
