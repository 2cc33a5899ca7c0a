-- ===== src/Agent/Drain/Active.antt =====
-- processor.rs, `process_pending_runs`: which runs are active after each part of a round.
use sentinel_command.Prelude.{
  ◌≡◌, refl, ap, ◌∙◌, Bool, true, false, not, ◌&&◌, ◌||◌, List, [], ◌∷◌, ◌++◌, map, Option, none,
  some, length, leb, arith, Bool-cases, Option-cases, inl, inr, ◌⊎◌,
}
use sentinel_command.Text.{Text, text_eq}
use sentinel_command.Assoc.{Assoc, member}
use sentinel_command.Assoc
use sentinel_command.Sets.{member-append}
use sentinel_command.Agent.Drain.{
  Run, run_id_of, org_of, DrainOptions, at_least_one, Drain, or_no_runs, forget_unlisted, note_seen,
  note_no_org, start_run, is_settled, consider, fill, Listing, pending, fetch_failed, on_listing,
  settle, Round, refill,
}
use sentinel_command.Agent.Drain.Invariant.{active_ids, active_ids-append}

pub note_no_org-active : (known : Bool) (d : Drain) → (note_no_org known d).active ≡ d.active
note_no_org-active true d = refl
note_no_org-active false d = refl

-- A run that is considered is left where it is or joins the active ones.
pub consider-active :
    (options : DrainOptions) (run : Run) (d : Drain)
    → ((consider options run d).active ≡ d.active)
      ⊎ ((org : Text) × ((consider options run d).active ≡ d.active ++ (run_id_of run, org) ∷ []))
unfolding consider start_run
consider-active options run d =
    let run_id = run_id_of run in
    elim (Bool-cases (is_settled run_id d || member run_id d.in_flight)) [
      | inl held ↦ inl (rw (held, consider) refl)
      | inr free ↦ elim (Option-cases (org_of run)) [
        | inl e ↦ inl (
            rw (free, consider)
              (rw (e, consider) (note_no_org-active (member run_id d.seen) (note_seen run_id d))))
        | inr (org, e) ↦
            elim (Bool-cases
              (leb (at_least_one options.max_per_org) (or_no_runs (Assoc.get org d.per_org)))) [
                | inl over ↦
                    inl (rw (free, consider) (rw (e, consider) (rw (over, start_run) refl)))
                | inr room ↦
                    inr (org, rw (free, consider) (rw (e, consider) (rw (room, start_run) refl)))
              ]
      ]
    ]

pub settle-active :
    (run_id : Text) (outcome : Option Text) (d : Drain)
    → (settle run_id outcome d).active ≡ d.active
settle-active run_id none d = refl
settle-active run_id (some reason) d = refl

module _ (options : DrainOptions) (id : Text) where
  -- A run that is active stays so while others join it.
  consider-grows :
      (run : Run) (d : Drain)
      → member id (active_ids d.active) ≡ true
      → member id (active_ids (consider options run d).active) ≡ true
  consider-grows run d h = elim (consider-active options run d) [
    | inl same ↦ rw same h
    | inr (org, more) ↦ rw more (
        ap (member id) (active_ids-append d.active (run_id_of run, org))
        ∙ member-append id (run_id_of run) (active_ids d.active)
        ∙ ground (arith, h))
  ]

  fill-grows :
      (runs : List Run) (d : Drain)
      → member id (active_ids d.active) ≡ true
      → member id (active_ids (fill options runs d).active) ≡ true
  unfolding fill
  fill-grows [] d h = h
  fill-grows (run ∷ runs) d h =
      elim (Bool-cases (leb (at_least_one options.max_concurrent) (length d.active))) [
        | inl full ↦ rw (full, fill) h
        | inr room ↦
            rw (room, fill) (fill-grows runs (consider options run d) (consider-grows run d h))
      ]

  on_listing-grows :
      (listing : Listing) (d : Drain)
      → member id (active_ids d.active) ≡ true
      → member id (active_ids (on_listing options listing d).active) ≡ true
  unfolding forget_unlisted
  on_listing-grows (pending runs) d h = fill-grows runs (forget_unlisted (map run_id_of runs) d) h
  on_listing-grows (fetch_failed error) d h = h

  pub refill-grows :
      (r : Round) (d : Drain)
      → member id (active_ids d.active) ≡ true
      → member id (active_ids (refill options r d).active) ≡ true
  refill-grows r d h =
      elim (Bool-cases
        (not r.stopping && not (leb (at_least_one options.max_concurrent) (length d.active)))) [
          | inl lists ↦ rw lists (on_listing-grows r.listing d h)
          | inr waits ↦ rw waits h
        ]
