-- ===== src/Agent/Drain/Rounds.antt =====
-- processor.rs, `process_pending_runs`: the rounds of the loop keep its invariant.
use sentinel_command.Prelude.{
  ℕ, ◌-◌, ◌≡◌, refl, ap, subst, ◌∙◌, false, not, List, [], ◌∷◌, Option, none, some, arith,
  Bool-cases, Option-cases, inl, inr, ◌⊎◌, if◌then◌else◌,
}
use sentinel_command.Interfaces.{◌==◌}
use sentinel_command.Text.{Text, text_eq, text_beq_iff, is_empty}
use sentinel_command.Assoc.{Assoc, member}
use sentinel_command.Assoc
use sentinel_command.Assoc.Laws as AssocLaws
use sentinel_command.Sets.{member-keep}
use sentinel_command.Agent.Drain.{
  DrainOptions, Drain, start, or_no_runs, set_remove, pick, settle, release_org, finish, Round,
  refill, round, process_pending_runs, returned, continues, await_done,
}
use sentinel_command.Agent.Drain.Invariant.{
  active_ids, IsValid, member-set_insert, start-IsValid, refill-IsValid,
}
use sentinel_command.Agent.Drain.Picked.{Picked, pick-Picked}

module _ (options : DrainOptions) where
  settle-IsValid :
      (run_id : Text) (outcome : Option Text) (d : Drain)
      → member run_id (active_ids d.active) ≡ false
      → IsValid options d
      → IsValid options (settle run_id outcome d)
  settle-IsValid run_id none d gone v = record {
    ids_nodup = v.ids_nodup;
    flight_exact = v.flight_exact;
    unsettled = λ id h. ground (
      arith,
      v.unsettled id h,
      member-set_insert id run_id d.finished,
      text_beq_iff run_id id,
      gone,
      h,
      ap (λ (t : Text). member t (active_ids d.active)),
    );
    within = v.within;
    org_exact = v.org_exact;
    org_within = v.org_within;
  }
  settle-IsValid run_id (some reason) d gone v = record {
    ids_nodup = v.ids_nodup;
    flight_exact = v.flight_exact;
    unsettled = λ id h. ground (
      arith,
      v.unsettled id h,
      member-set_insert id run_id d.failed,
      text_beq_iff run_id id,
      gone,
      h,
      ap (λ (t : Text). member t (active_ids d.active)),
    );
    within = v.within;
    org_exact = v.org_exact;
    org_within = v.org_within;
  }

  -- The state in which a run has left the active ones.
  abbrev pub without : Text × Text → List (Text × Text) → Drain → Drain
  without chosen rest d = record d {
    active = rest;
    in_flight = set_remove chosen.0 d.in_flight;
    per_org = release_org chosen.1 d.per_org;
  }

  get-release_org :
      (org o : Text) (per_org : Assoc Text ℕ)
      → or_no_runs (Assoc.get o (release_org org per_org)) ≡ (
          if org == o
          then or_no_runs (Assoc.get o per_org) - 1
          else or_no_runs (Assoc.get o per_org))
  get-release_org org o per_org = elim (Option-cases (Assoc.get org per_org)) [
    | inl e ↦ ground (arith, e, text_beq_iff org o, ap (λ (t : Text). Assoc.get t per_org))
    | inr (count, e) ↦
        rw (e, release_org)
          (ap or_no_runs (AssocLaws.get-insert org o (count - 1) per_org)
            ∙ ground (arith, e, text_beq_iff org o, ap (λ (t : Text). Assoc.get t per_org)))
  ]

  without-IsValid :
      (chosen : Text × Text) (rest : List (Text × Text)) (d : Drain)
      → Picked d.active chosen rest
      → IsValid options d
      → IsValid options (without chosen rest d)
  without-IsValid chosen rest d p v =
      let below = p.nodup v.ids_nodup in
      record {
        ids_nodup = below.0;
        flight_exact = λ id.
            member-keep (λ y. not (y == chosen.0)) id d.in_flight
            ∙ ground (
              arith,
              v.flight_exact id,
              p.ids id,
              below.1,
              text_beq_iff id chosen.0,
              text_beq_iff chosen.0 id,
              ap (λ (t : Text). member t (active_ids rest)),
            );
        unsettled = λ id h. ground (arith, v.unsettled id, p.ids id, h);
        within = omega (arith, p.size, v.within);
        org_exact =
            λ o. get-release_org chosen.1 o d.per_org ∙ ground (arith, v.org_exact o, p.orgs o);
        org_within = λ o. omega (arith, v.org_within o, p.orgs o);
      }

  finish-IsValid :
      (n : ℕ) (outcome : Option Text) (d : Drain)
      → IsValid options d
      → IsValid options (finish n outcome d)
  unfolding finish
  finish-IsValid n outcome d v = elim (Option-cases (pick n d.active)) [
    | inl e ↦ rw (e, finish) v
    | inr ((chosen, rest), e) ↦
        let p = pick-Picked n d.active chosen rest e in
        rw (e, finish)
          (settle-IsValid chosen.0 outcome (without chosen rest d) (p.nodup v.ids_nodup).1
            (without-IsValid chosen rest d p v))
  ]

  await_done-IsValid :
      (done : Option (ℕ × Option Text)) (d : Drain)
      → IsValid options d
      → IsValid options (await_done done d)
  await_done-IsValid none d v = v
  await_done-IsValid (some (n, outcome)) d v = finish-IsValid n outcome d v

  -- A round returns once nothing is active, and otherwise waits.
  pub round-cases :
      (r : Round) (d : Drain)
      → let filled = refill options r d in
        (round options r d ≡ returned filled.summary)
        ⊎ ((is_empty filled.active ≡ false)
            × (round options r d ≡ continues (await_done r.done filled)))
  unfolding round
  round-cases r d = elim (Bool-cases (is_empty (refill options r d).active)) [
    | inl idle ↦ inl (rw (idle, round) refl)
    | inr busy ↦ inr (busy, rw (busy, round) refl)
  ]

  pub next-IsValid :
      (r : Round) (d : Drain)
      → IsValid options d
      → IsValid options (await_done r.done (refill options r d))
  next-IsValid r d v = await_done-IsValid r.done (refill options r d) (refill-IsValid options r d v)

  pub rounds-IsValid :
      (rounds : List Round) (d next : Drain)
      → IsValid options d
      → process_pending_runs options rounds d ≡ continues next
      → IsValid options next
  unfolding process_pending_runs
  rounds-IsValid [] d next v e = subst (IsValid options) (cc e) v
  rounds-IsValid (r ∷ rounds) d next v e = elim (round-cases r d) [
    | inl ends ↦ absurd (cc (rw (ends, process_pending_runs) at e))
    | inr (_, goes) ↦
        rounds-IsValid rounds (await_done r.done (refill options r d)) next (next-IsValid r d v)
          (rw (goes, process_pending_runs) at e)
  ]

  -- Whatever the queue lists, the clock does and the runs come to, a drain never has more runs
  -- active than it may have, in all and for each organisation, never one run twice and none that it
  -- has on record as ended (an ended run leaves the record when a listing leaves it out); and what
  -- it counts for an organisation is what is active for it.
  pub process_pending_runs-IsValid :
      (rounds : List Round) (d : Drain)
      → process_pending_runs options rounds start ≡ continues d
      → IsValid options d
  process_pending_runs-IsValid rounds d e = rounds-IsValid rounds start d (start-IsValid options) e
