-- ===== src/Agent/Drain/Invariant.antt =====
-- processor.rs, `process_pending_runs`: what holds between two rounds of the drain.
use sentinel_command.Prelude.{
  ℕ, suc, ◌+◌, ◌≤◌, ◌<◌, ◌≡◌, refl, sym, ap, ◌∙◌, Bool, true, false, not, ◌&&◌, ◌||◌, List, [], ◌∷◌,
  ◌++◌, map, length, length-append, leb, arith, Bool-cases, Option-cases, inl, inr, if◌then◌else◌,
}
use sentinel_command.Interfaces.{◌==◌}
use sentinel_command.Text.{Text, text_eq, text_beq_iff}
use sentinel_command.Assoc.{Assoc, member}
use sentinel_command.Assoc
use sentinel_command.Assoc.Laws as AssocLaws
use sentinel_command.Sets.{Nodup, member-append, member-keep, push-Nodup}
use sentinel_command.Agent.Drain.{
  Run, run_id_of, org_of, DrainOptions, at_least_one, Drain, start, or_no_runs, set_insert,
  forget_unlisted, note_seen, note_no_org, start_run, is_settled, consider, fill, Listing, pending,
  fetch_failed, on_listing, Round, refill,
}

-- The ids of the active runs, and how many of them an organisation has.
abbrev pub active_ids : List (Text × Text) → List Text
active_ids active = map (λ run. run.0) active

abbrev pub count_org : Text → List (Text × Text) → ℕ
count_org org [] = 0
count_org org (run ∷ active) = (if run.1 == org then 1 else 0) + count_org org active

pub record IsValid (options : DrainOptions) (d : Drain) : Type 0 where
  pub ids_nodup : Nodup (active_ids d.active)
  pub flight_exact : (id : Text) → member id d.in_flight ≡ member id (active_ids d.active)
  pub unsettled : (id : Text) → member id (active_ids d.active) ≡ true → is_settled id d ≡ false
  pub within : length d.active ≤ at_least_one options.max_concurrent
  pub org_exact : (org : Text) → or_no_runs (Assoc.get org d.per_org) ≡ count_org org d.active
  pub org_within : (org : Text) → count_org org d.active ≤ at_least_one options.max_per_org

pub active_ids-append :
    (active : List (Text × Text)) (run : Text × Text)
    → active_ids (active ++ run ∷ []) ≡ active_ids active ++ run.0 ∷ []
active_ids-append [] run = refl
active_ids-append (r ∷ active) run = cc (active_ids-append active run)

count_org-append :
    (org : Text) (active : List (Text × Text)) (run : Text × Text)
    → count_org org (active ++ run ∷ []) ≡ count_org org active + (if run.1 == org then 1 else 0)
count_org-append org [] run = omega arith
count_org-append org (r ∷ active) run = omega (arith, count_org-append org active run)

pub member-set_insert :
    (x y : Text) (xs : List Text) → member x (set_insert y xs) ≡ (y == x || member x xs)
unfolding member
member-set_insert x y xs = ground (arith, text_beq_iff y x, ap (λ (t : Text). member t xs))

pub start-IsValid : (options : DrainOptions) → IsValid options start
unfolding Assoc.get member
start-IsValid options = record {
  ids_nodup = tt;
  flight_exact = λ id. refl;
  unsettled = λ id h. refl;
  within = omega arith;
  org_exact = λ org. refl;
  org_within = λ org. omega arith;
}

module _ (options : DrainOptions) where
  forget_unlisted-IsValid :
      (listed : List Text) (d : Drain)
      → IsValid options d
      → IsValid options (forget_unlisted listed d)
  unfolding forget_unlisted
  forget_unlisted-IsValid listed d v = record {
    ids_nodup = v.ids_nodup;
    flight_exact = v.flight_exact;
    unsettled = λ id h. ground (
      arith,
      v.unsettled id h,
      member-keep (λ id. member id listed) id d.failed,
      member-keep (λ id. member id listed) id d.finished,
    );
    within = v.within;
    org_exact = v.org_exact;
    org_within = v.org_within;
  }

  note-IsValid :
      (run_id : Text) (d : Drain) → IsValid options d → IsValid options (note_seen run_id d)
  note-IsValid run_id d v = record {
    ids_nodup = v.ids_nodup;
    flight_exact = v.flight_exact;
    unsettled = v.unsettled;
    within = v.within;
    org_exact = v.org_exact;
    org_within = v.org_within;
  }

  note_no_org-IsValid :
      (known : Bool) (d : Drain) → IsValid options d → IsValid options (note_no_org known d)
  note_no_org-IsValid true d v = v
  note_no_org-IsValid false d v = record {
    ids_nodup = v.ids_nodup;
    flight_exact = v.flight_exact;
    unsettled = v.unsettled;
    within = v.within;
    org_exact = v.org_exact;
    org_within = v.org_within;
  }

  start_run-IsValid :
      (run_id org : Text) (d : Drain)
      → is_settled run_id d ≡ false
      → member run_id d.in_flight ≡ false
      → length d.active < at_least_one options.max_concurrent
      → IsValid options d
      → IsValid options (start_run options run_id org d)
  unfolding start_run
  start_run-IsValid run_id org d fresh grounded room v =
      let running = or_no_runs (Assoc.get org d.per_org) in
      elim (Bool-cases (leb (at_least_one options.max_per_org) running)) [
        | inl over ↦
            rw (over, start_run)
              (record {
                ids_nodup = v.ids_nodup;
                flight_exact = v.flight_exact;
                unsettled = v.unsettled;
                within = v.within;
                org_exact = λ o.
                    ap or_no_runs (AssocLaws.get-insert org o running d.per_org)
                    ∙ ground (
                      arith,
                      v.org_exact o,
                      text_beq_iff org o,
                      ap (λ (t : Text). Assoc.get t d.per_org),
                    );
                org_within = v.org_within;
              })
        | inr free ↦
            rw (free, start_run)
              (record {
                ids_nodup = rw (active_ids-append d.active (run_id, org)) (
                    push-Nodup run_id (active_ids d.active) (sym (v.flight_exact run_id) ∙ grounded)
                      v.ids_nodup);
                flight_exact = λ id.
                    member-set_insert id run_id d.in_flight
                    ∙ rw (active_ids-append d.active (run_id, org)) (
                        ground (
                          arith,
                          v.flight_exact id,
                          member-append id run_id (active_ids d.active),
                        ));
                unsettled = λ id h. ground (
                  arith,
                  fresh,
                  v.unsettled id,
                  text_beq_iff run_id id,
                  ap (λ (t : Text). is_settled t d),
                  sym h
                      ∙ ap (member id) (active_ids-append d.active (run_id, org))
                      ∙ member-append id run_id (active_ids d.active),
                );
                within = omega (arith, length-append d.active ((run_id, org) ∷ []), room);
                org_exact = λ o.
                    ap or_no_runs (AssocLaws.get-insert org o (suc running) d.per_org)
                    ∙ ground (
                      arith,
                      v.org_exact o,
                      count_org-append o d.active (run_id, org),
                      text_beq_iff org o,
                      ap (λ (t : Text). Assoc.get t d.per_org),
                    );
                org_within = λ o. ground (
                  arith,
                  free,
                  v.org_exact o,
                  v.org_within o,
                  count_org-append o d.active (run_id, org),
                  text_beq_iff org o,
                  ap (λ (t : Text). Assoc.get t d.per_org),
                );
              })
      ]

  consider-IsValid :
      (run : Run) (d : Drain)
      → length d.active < at_least_one options.max_concurrent
      → IsValid options d
      → IsValid options (consider options run d)
  unfolding consider
  consider-IsValid run d room v =
      let run_id = run_id_of run in
      elim (Bool-cases (is_settled run_id d || member run_id d.in_flight)) [
        | inl held ↦ rw (held, consider) v
        | inr free ↦ elim (Option-cases (org_of run)) [
          | inl e ↦
              rw (free, consider)
                (rw (e, consider)
                  (note_no_org-IsValid (member run_id d.seen) (note_seen run_id d)
                    (note-IsValid run_id d v)))
          | inr (org, e) ↦
              rw (free, consider)
                (rw (e, consider)
                  (start_run-IsValid run_id org (note_seen run_id d) (ground (arith, free))
                    (ground (arith, free)) room (note-IsValid run_id d v)))
        ]
      ]

  fill-IsValid :
      (runs : List Run) (d : Drain) → IsValid options d → IsValid options (fill options runs d)
  unfolding fill
  fill-IsValid [] d v = v
  fill-IsValid (run ∷ runs) d v =
      elim (Bool-cases (leb (at_least_one options.max_concurrent) (length d.active))) [
        | inl full ↦ rw (full, fill) v
        | inr room ↦
            rw (room, fill)
              (fill-IsValid runs (consider options run d)
                (consider-IsValid run d (ground (arith, room)) v))
      ]

  on_listing-IsValid :
      (listing : Listing) (d : Drain)
      → IsValid options d
      → IsValid options (on_listing options listing d)
  on_listing-IsValid (pending runs) d v =
      fill-IsValid runs (forget_unlisted (map run_id_of runs) d)
        (forget_unlisted-IsValid (map run_id_of runs) d v)
  on_listing-IsValid (fetch_failed error) d v = record {
    ids_nodup = v.ids_nodup;
    flight_exact = v.flight_exact;
    unsettled = v.unsettled;
    within = v.within;
    org_exact = v.org_exact;
    org_within = v.org_within;
  }

  pub refill-IsValid :
      (r : Round) (d : Drain) → IsValid options d → IsValid options (refill options r d)
  refill-IsValid r d v =
      elim (Bool-cases
        (not r.stopping && not (leb (at_least_one options.max_concurrent) (length d.active)))) [
          | inl lists ↦ rw lists (on_listing-IsValid r.listing d v)
          | inr waits ↦ rw waits v
        ]
