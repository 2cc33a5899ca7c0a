-- ===== src/Agent/Drain/Attempts.antt =====
-- processor.rs, `process_pending_runs`: a run that has ended is not tried again in the same drain.
use sentinel_command.Prelude.{
  ℕ, ◌≡◌, All, refl, sym, ap, ◌∙◌, Bool, true, false, not, ◌&&◌, ◌||◌, List, [], ◌∷◌, map, Option,
  none, some, length, leb, arith, Bool-cases, Option-cases, inl, inr,
}
use sentinel_command.Interfaces.{◌==◌}
use sentinel_command.Text.{Text, text_eq}
use sentinel_command.Assoc.{member}
use sentinel_command.Sets.{member-keep}
use sentinel_command.Agent.Drain.{
  Run, run_id_of, org_of, DrainOptions, at_least_one, Drain, start, forget_unlisted, note_seen,
  note_no_org, start_run, is_settled, consider, fill, Listing, pending, fetch_failed, on_listing,
  pick, settle, finish, Round, refill, process_pending_runs, continues, await_done,
}
use sentinel_command.Agent.Drain.Invariant.{active_ids, member-set_insert}
use sentinel_command.Agent.Drain.Picked.{pick-Picked}
use sentinel_command.Agent.Drain.Active.{settle-active, refill-grows}
use sentinel_command.Agent.Drain.Rounds.{
  process_pending_runs-IsValid, rounds-IsValid, round-cases, without,
}

-- The listing of a round, if it came, names an id.
abbrev pub Lists : Text → Listing → Type 0
Lists id (pending runs) = member id (map run_id_of runs) ≡ true
Lists id (fetch_failed error) = Unit {0}

note_no_org-settled :
    (known : Bool) (id : Text) (d : Drain) → is_settled id (note_no_org known d) ≡ is_settled id d
note_no_org-settled true id d = refl
note_no_org-settled false id d = refl

module _ (options : DrainOptions) (id : Text) where
  start_run-settled :
      (run_id org : Text) (d : Drain)
      → is_settled id (start_run options run_id org d) ≡ is_settled id d
  unfolding start_run
  start_run-settled run_id org d = ground arith

  pub consider-settled :
      (run : Run) (d : Drain) → is_settled id (consider options run d) ≡ is_settled id d
  unfolding consider
  consider-settled run d =
      let run_id = run_id_of run in
      elim (Bool-cases (is_settled run_id d || member run_id d.in_flight)) [
        | inl held ↦ rw (held, consider) refl
        | inr free ↦ elim (Option-cases (org_of run)) [
          | inl e ↦
              rw (free, consider)
                (rw (e, consider)
                  (note_no_org-settled (member run_id d.seen) id (note_seen run_id d)))
          | inr (org, e) ↦
              rw (free, consider)
                (rw (e, consider) (start_run-settled run_id org (note_seen run_id d)))
        ]
      ]

  pub fill-settled :
      (runs : List Run) (d : Drain) → is_settled id (fill options runs d) ≡ is_settled id d
  unfolding fill
  fill-settled [] d = refl
  fill-settled (run ∷ runs) d =
      elim (Bool-cases (leb (at_least_one options.max_concurrent) (length d.active))) [
        | inl full ↦ rw (full, fill) refl
        | inr room ↦
            rw (room, fill) (fill-settled runs (consider options run d) ∙ consider-settled run d)
      ]

  pub on_listing-settled :
      (listing : Listing) (d : Drain)
      → Lists id listing
      → is_settled id (on_listing options listing d) ≡ is_settled id d
  unfolding forget_unlisted
  on_listing-settled (pending runs) d l =
      let listed = map run_id_of runs in
      fill-settled runs (forget_unlisted listed d)
      ∙ ground (
        arith,
        l,
        member-keep (λ k. member k listed) id d.failed,
        member-keep (λ k. member k listed) id d.finished,
      )
  on_listing-settled (fetch_failed error) d l = refl

  pub refill-settled :
      (r : Round) (d : Drain)
      → Lists id r.listing
      → is_settled id (refill options r d) ≡ is_settled id d
  refill-settled r d l =
      elim (Bool-cases
        (not r.stopping && not (leb (at_least_one options.max_concurrent) (length d.active)))) [
          | inl lists ↦ rw lists (on_listing-settled r.listing d l)
          | inr waits ↦ rw waits refl
        ]

  pub settle-settled :
      (run_id : Text) (outcome : Option Text) (d : Drain)
      → is_settled id (settle run_id outcome d) ≡ (run_id == id || is_settled id d)
  settle-settled run_id none d = ground (arith, member-set_insert id run_id d.finished)
  settle-settled run_id (some reason) d = ground (arith, member-set_insert id run_id d.failed)

  finish-settled :
      (n : ℕ) (outcome : Option Text) (d : Drain)
      → is_settled id d ≡ true
      → is_settled id (finish n outcome d) ≡ true
  unfolding finish
  finish-settled n outcome d h = elim (Option-cases (pick n d.active)) [
    | inl e ↦ rw (e, finish) h
    | inr ((chosen, rest), e) ↦
        rw (e, finish)
          (settle-settled chosen.0 outcome (without options chosen rest d) ∙ ground (arith, h))
  ]

  pub await_done-settled :
      (done : Option (ℕ × Option Text)) (d : Drain)
      → is_settled id d ≡ true
      → is_settled id (await_done done d) ≡ true
  await_done-settled none d h = h
  await_done-settled (some (n, outcome)) d h = finish-settled n outcome d h

  rounds-settled :
      (rounds : List Round) (d next : Drain)
      → All (λ r. Lists id r.listing) rounds
      → is_settled id d ≡ true
      → process_pending_runs options rounds d ≡ continues next
      → is_settled id next ≡ true
  unfolding process_pending_runs
  rounds-settled [] d next l h e = let same : d ≡ next = cc e in ap (is_settled id) (sym same) ∙ h
  rounds-settled (r ∷ rounds) d next l h e = elim (round-cases options r d) [
    | inl ends ↦ absurd (cc (rw (ends, process_pending_runs) at e))
    | inr (_, goes) ↦
        rounds-settled rounds (await_done r.done (refill options r d)) next l.1
          (await_done-settled r.done (refill options r d) (refill-settled r d l.0 ∙ h))
          (rw (goes, process_pending_runs) at e)
  ]

  -- The run is active, or it has ended in this drain.
  abbrev is_taken : Drain → Bool
  is_taken d = member id (active_ids d.active) || is_settled id d

  finish-taken :
      (n : ℕ) (outcome : Option Text) (d : Drain)
      → is_taken d ≡ true
      → is_taken (finish n outcome d) ≡ true
  unfolding finish
  finish-taken n outcome d h = elim (Option-cases (pick n d.active)) [
    | inl e ↦ rw (e, finish) h
    | inr ((chosen, rest), e) ↦
        let left = without options chosen rest d in
        rw (e, finish)
          (ground (
            arith,
            h,
            (pick-Picked n d.active chosen rest e).ids id,
            ap (λ (active : List (Text × Text)). member id (active_ids active))
                (settle-active chosen.0 outcome left),
            settle-settled chosen.0 outcome left,
          ))
  ]

  await_done-taken :
      (done : Option (ℕ × Option Text)) (d : Drain)
      → is_taken d ≡ true
      → is_taken (await_done done d) ≡ true
  await_done-taken none d h = h
  await_done-taken (some (n, outcome)) d h = finish-taken n outcome d h

  rounds-taken :
      (rounds : List Round) (d next : Drain)
      → All (λ r. Lists id r.listing) rounds
      → is_taken d ≡ true
      → process_pending_runs options rounds d ≡ continues next
      → is_taken next ≡ true
  unfolding process_pending_runs
  rounds-taken [] d next l h e = let same : d ≡ next = cc e in ap is_taken (sym same) ∙ h
  rounds-taken (r ∷ rounds) d next l h e = elim (round-cases options r d) [
    | inl ends ↦ absurd (cc (rw (ends, process_pending_runs) at e))
    | inr (_, goes) ↦
        rounds-taken rounds (await_done r.done (refill options r d)) next l.1
          (await_done-taken r.done (refill options r d)
            (ground (arith, h, refill-grows options id r d, refill-settled r d l.0)))
          (rw (goes, process_pending_runs) at e)
  ]

  -- For as long as the queue goes on listing a run, a drain that has started it and seen it end,
  -- well or not, does not start it again.
  pub process_pending_runs-once :
      (before ends after : List Round) (d over next : Drain)
      → process_pending_runs options before start ≡ continues d
      → member id (active_ids d.active) ≡ true
      → All (λ r. Lists id r.listing) ends
      → process_pending_runs options ends d ≡ continues over
      → member id (active_ids over.active) ≡ false
      → All (λ r. Lists id r.listing) after
      → process_pending_runs options after over ≡ continues next
      → member id (active_ids next.active) ≡ false
  process_pending_runs-once before ends after d over next b h l e gone l₂ e₂ =
      let v =
        rounds-IsValid options ends d over (process_pending_runs-IsValid options before d b) e in
      let w = rounds-IsValid options after over next v e₂ in
      let settled : is_settled id over ≡ true =
        ground (arith, gone, rounds-taken ends d over l (ground (arith, h)) e) in
      let kept = rounds-settled after over next l₂ settled e₂ in
      elim (Bool-cases (member id (active_ids next.active))) [
        | inl again ↦ absurd (cc (sym kept ∙ w.unsettled id again))
        | inr still ↦ still
      ]
