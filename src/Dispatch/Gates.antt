-- ===== src/Dispatch/Gates.antt =====
-- sentinel_dispatch.rs: when a run is queued, and how many there may be.
use sentinel_command.Prelude.{
  ℕ, ◌≡◌, refl, sym, ap, subst, ◌∙◌, Bool, true, false, not, ◌&&◌, List, [], ◌∷◌, ◌++◌, Option,
  none, some, leb, ltb, if◌then◌else◌, arith, Bool-cases, Option-cases, inl, inr,
}
use sentinel_command.Text.{Text, text_eq}
use sentinel_command.Dispatch.Rules.{
  Refusal, Config, Run, cap_for_plan, runs_used_this_month, is_agent_authored,
}
use sentinel_command.Dispatch.{
  Notification, World, global_dispatch_allowed, can_dispatch_for_kind, run_for, insert_for,
  is_allowed, maybe_dispatch_for_notification,
}
use sentinel_command.Dispatch.Wanted.{is_none, is_wanted_by, passes, can_dispatch-is_none}

abbrev pub is_some {ℓ} : {A : Type ℓ} → Option A → Bool
is_some none = false
is_some (some a) = true

-- What a notification comes to: the run is queued or not, the rows, and their number.
pub record Dispatched (w : World) (meanwhile : List Run → List Run) (n : Notification)
    (runs : List Run) (out : List Run × Option Text) : Type 0 where
  pub decided : is_some out.1 ≡ (
      passes w runs n
      && w.insert_succeeds
      && leb
          (runs_used_this_month n.org_id w.month_at_insert (meanwhile runs ++ run_for w n ∷ []))
          (cap_for_plan w.plan_at_insert))
  pub queued : out.0 ≡ (
      if is_some out.1
      then meanwhile runs ++ run_for w n ∷ []
      else if passes w runs n
      then meanwhile runs
      else runs)
  pub capped :
      (is_some out.1
        && ltb
            (cap_for_plan w.plan_at_insert)
            (runs_used_this_month n.org_id w.month_at_insert out.0))
      ≡ false

leb-eq-not-ltb : (a b : ℕ) → leb a b ≡ not (ltb b a)
leb-eq-not-ltb a b = ground arith

goes_on :
    (allowed agent found : Bool) (config : Option Config) (gate : Config → Option Refusal)
    (through held : List Run × Option Text)
    → (if allowed
        then if agent
          then held
          else if found
          then elim config [
            | none ↦ held
            | some cfg ↦ elim (gate cfg) [ some refusal ↦ held | none ↦ through ]
          ]
          else held
        else held)
      ≡ (if allowed
            && not agent
            && found
            && (elim config [ none ↦ false | some cfg ↦ is_none (gate cfg) ])
          then through
          else held)
goes_on false agent found config gate through held = refl
goes_on true true found config gate through held = refl
goes_on true false false config gate through held = refl
goes_on true false true none gate through held = refl
goes_on true false true (some cfg) gate through held = elim (Option-cases (gate cfg)) [
  | inl e ↦ rw e refl
  | inr (refusal, e) ↦ rw e refl
]

module _ (w : World) (meanwhile : List Run → List Run) (n : Notification) (runs : List Run) where
  stopped : passes w runs n ≡ false → Dispatched w meanwhile n runs (runs, none)
  stopped h = record { decided = rw h refl; queued = rw h refl; capped = refl }

  abbrev with_run : List Run
  with_run = meanwhile runs ++ run_for w n ∷ []

  abbrev used_then : ℕ
  used_then = runs_used_this_month n.org_id w.month_at_insert with_run

  inserted :
      passes w runs n ≡ true → Dispatched w meanwhile n runs (insert_for w n (meanwhile runs))
  inserted h =
      let flip = leb-eq-not-ltb used_then (cap_for_plan w.plan_at_insert) in
      elim (Bool-cases w.insert_succeeds) [
        | inr fails ↦
            let e : insert_for w n (meanwhile runs) ≡ (meanwhile runs, none) = rw fails refl in
            subst (Dispatched w meanwhile n runs) (sym e)
              (record { decided = rw h (rw fails refl); queued = rw h refl; capped = refl })
        | inl succeeds ↦ elim (Bool-cases (ltb (cap_for_plan w.plan_at_insert) used_then)) [
          | inl over ↦
              let e : insert_for w n (meanwhile runs) ≡ (meanwhile runs, none) =
                rw succeeds (rw over refl) in
              subst (Dispatched w meanwhile n runs) (sym e) (record {
                decided = rw h (rw succeeds (sym (flip ∙ ap not over)));
                queued = rw h refl;
                capped = refl;
              })
          | inr fits ↦
              let e : insert_for w n (meanwhile runs) ≡ (with_run, some n.run_id) =
                rw succeeds (rw fits refl) in
              subst (Dispatched w meanwhile n runs) (sym e) (record {
                decided = rw h (rw succeeds (sym (flip ∙ ap not fits)));
                queued = refl;
                capped = fits;
              })
        ]
      ]

  gated :
      (config : Option Config)
      → (elim config [ none ↦ false | some cfg ↦ is_none (can_dispatch_for_kind w runs n cfg) ])
        ≡ is_wanted_by w runs n config
  gated none = refl
  gated (some cfg) = can_dispatch-is_none w runs n cfg

  -- The code goes on to the insert exactly when all gates are open.
  maybe_dispatch-eq-passes :
      maybe_dispatch_for_notification w meanwhile n runs
      ≡ (if passes w runs n then insert_for w n (meanwhile runs) else (runs, none))
  unfolding maybe_dispatch_for_notification
  maybe_dispatch-eq-passes =
      goes_on (is_allowed (global_dispatch_allowed w runs)) (is_agent_authored n.kind n.meta)
        w.config_succeeds w.config (can_dispatch_for_kind w runs n)
        (insert_for w n (meanwhile runs)) (runs, none)
      ∙ ap
          (λ (b : Bool).
            if is_allowed (global_dispatch_allowed w runs)
              && not (is_agent_authored n.kind n.meta)
              && w.config_succeeds
              && b
            then insert_for w n (meanwhile runs)
            else (runs, none))
          (gated w.config)

  -- A run is queued for a notification exactly when every gate is open, in whatever order they stand,
  -- and the count with its row is within the cap of the plan: dispatch is on and the fleet has runs left,
  -- no agent wrote the incident, the organisation has a config that is enabled, a plan and a licence that
  -- allow it, the trigger of this kind is on, the camera is watched, now, and not cooling down, and the
  -- month has runs left. Nothing else adds a row, and a run that is queued leaves the month's runs within
  -- the cap, whatever others insert between the gate and the insert.
  pub maybe_dispatch_for_notification-Dispatched :
      Dispatched w meanwhile n runs (maybe_dispatch_for_notification w meanwhile n runs)
  maybe_dispatch_for_notification-Dispatched =
      let route = maybe_dispatch-eq-passes in
      elim (Bool-cases (passes w runs n)) [
        | inl through ↦
            subst (Dispatched w meanwhile n runs) (sym (route ∙ rw through refl)) (inserted through)
        | inr shut ↦
            subst (Dispatched w meanwhile n runs) (sym (route ∙ rw shut refl)) (stopped shut)
      ]
