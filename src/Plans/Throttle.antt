-- ===== src/Plans/Throttle.antt =====
-- plans.rs, `resolve_org_plan`: how often the billing service is asked, and what a failure does.
use sentinel_command.Prelude.{
  ℕ, ◌-◌, ◌<◌, ◌≡◌, refl, sym, ap, ◌∙◌, Bool, true, false, not, List, [], ◌∷◌, Option, none, some,
  ltb, arith, Bool-cases, Option-cases, inl, inr, ◌⊎◌, subst, All, if◌then◌else◌,
}
use sentinel_command.Prelude.Int.{ℤ}
use sentinel_command.Interfaces.{◌==◌, ==-refl}
use sentinel_command.Text.{Text, text_eq, text_beq_iff}
use sentinel_command.Assoc.{Assoc, Distinct, retain}
use sentinel_command.Assoc
use sentinel_command.Assoc.Laws as AssocLaws
use sentinel_command.Plans.{
  Caches, Item, Settings, resolve_throttle, prune_resolve_cache, throttle, is_within,
  resolve_org_plan, cached_plan, non_empty_or_free, fetch_live_plan_slug, self_host,
}

-- The organisation's last lookup was at an instant.
pub record Stamped (org_id : Text) (asked : ℕ) (c : Caches) : Type 0 where
  pub distinct : Distinct c.last_resolve_at
  pub stamp : Assoc.get org_id c.last_resolve_at ≡ some asked

prune-Distinct :
    (c : Caches) (now : ℕ)
    → Distinct c.last_resolve_at
    → Distinct (prune_resolve_cache c now).last_resolve_at
unfolding prune_resolve_cache
prune-Distinct c now d = ground (
  arith,
  d,
  AssocLaws.retain-Distinct (λ _ at. ltb (now - at) resolve_throttle) c.last_resolve_at d,
)

prune-Stamped :
    (c : Caches) (org_id : Text) (asked now : ℕ)
    → now - asked < resolve_throttle
    → Stamped org_id asked c
    → Stamped org_id asked (prune_resolve_cache c now)
unfolding prune_resolve_cache
prune-Stamped c org_id asked now near v = record {
  distinct = prune-Distinct c now v.distinct;
  stamp = ground (
    arith,
    v.stamp,
    near,
    AssocLaws.get-retain (λ _ at. ltb (now - at) resolve_throttle) org_id c.last_resolve_at
        v.distinct,
  );
}

pub throttle-Stamped :
    (c : Caches) (org_id other : Text) (asked now : ℕ)
    → now - asked < resolve_throttle
    → Stamped org_id asked c
    → Stamped org_id asked (throttle c other now).0
unfolding throttle
throttle-Stamped c org_id other asked now near v =
    let pruned = prune_resolve_cache c now in
    let w = prune-Stamped c org_id asked now near v in
    elim (Bool-cases (is_within (Assoc.get other pruned.last_resolve_at) now resolve_throttle)) [
      | inl held ↦ rw (held, throttle) w
      | inr free ↦
          rw (free, throttle)
            (record {
              distinct = AssocLaws.insert-Distinct other now pruned.last_resolve_at w.distinct;
              stamp = elim (Bool-cases (other == org_id)) [
                | inl same ↦ absurd (
                    ground (
                      arith,
                      near,
                      sym free
                          ∙ ap
                              (λ (k : Text).
                                is_within (Assoc.get k pruned.last_resolve_at) now resolve_throttle)
                              ((text_beq_iff other org_id).0 same)
                          ∙ ap (λ o. is_within o now resolve_throttle) w.stamp,
                    ))
                | inr apart ↦
                    AssocLaws.get-insert other org_id now pruned.last_resolve_at ∙ rw apart w.stamp
              ];
            })
    ]

throttle-near :
    (c : Caches) (org_id : Text) (asked now : ℕ)
    → now - asked < resolve_throttle
    → Stamped org_id asked c
    → (throttle c org_id now).1 ≡ true
unfolding throttle
throttle-near c org_id asked now near v =
    let w = prune-Stamped c org_id asked now near v in ground (arith, w.stamp, near)

throttle-asked :
    (c : Caches) (org_id : Text) (now : ℕ)
    → Distinct c.last_resolve_at
    → (throttle c org_id now).1 ≡ false
    → Stamped org_id now (throttle c org_id now).0
unfolding throttle
throttle-asked c org_id now d h =
    let pruned = prune_resolve_cache c now in
    elim (Bool-cases (is_within (Assoc.get org_id pruned.last_resolve_at) now resolve_throttle)) [
      | inl held ↦ absurd (cc (rw (held, throttle) at h))
      | inr free ↦
          rw (free, throttle)
            (record {
              distinct =
                  AssocLaws.insert-Distinct org_id now pruned.last_resolve_at
                    (prune-Distinct c now d);
              stamp =
                  AssocLaws.get-insert org_id org_id now pruned.last_resolve_at
                  ∙ rw (==-refl org_id) refl;
            })
    ]

module _ (s : Settings) (local_auth : Bool) where
  open s use {Db}

  -- A call of `resolve_org_plan`: whom it is for, its clocks, and what the service would answer.
  abbrev pub Resolve : Type 0
  Resolve = Text × ℕ × ℤ × Option (List Item)

  abbrev pub resolve : Resolve → Caches × Db → Caches × Db
  resolve (org_id, now, wall, answer) (c, db) =
      let out = resolve_org_plan s local_auth c db org_id now wall answer in (out.0, out.1)

  -- The calls in turn, the earliest first.
  unfoldable pub resolve_all : List Resolve → Caches × Db → Caches × Db
  resolve_all [] state = state
  resolve_all (r ∷ rs) state = resolve_all rs (resolve r state)

  -- A call leaves the caches, or goes through the throttle and asks unless that holds it back.
  resolve-cases :
      (c : Caches) (db : Db) (org_id : Text) (now : ℕ) (wall : ℤ) (answer : Option (List Item))
      → let out = resolve_org_plan s local_auth c db org_id now wall answer in
        ((out.0 ≡ c) × (out.3 ≡ false))
        ⊎ ((out.0 ≡ (throttle c org_id now).0) × (out.3 ≡ not (throttle c org_id now).1))
  unfolding resolve_org_plan
  resolve-cases c db org_id now wall answer =
      elim (Option-cases (fetch_live_plan_slug wall answer)) [
        | inl e ↦ rw (e, resolve_org_plan) (ground arith)
        | inr (slug, e) ↦ rw (e, resolve_org_plan) (ground arith)
      ]

  resolve-Stamped :
      (c : Caches) (db : Db) (org_id other : Text) (asked now : ℕ) (wall : ℤ)
      (answer : Option (List Item))
      → now - asked < resolve_throttle
      → Stamped org_id asked c
      → Stamped org_id asked (resolve_org_plan s local_auth c db other now wall answer).0
  resolve-Stamped c db org_id other asked now wall answer near v =
      elim (resolve-cases c db other now wall answer) [
        | inl (same, _) ↦ subst (Stamped org_id asked) (sym same) v
        | inr (through, _) ↦
            subst (Stamped org_id asked) (sym through)
              (throttle-Stamped c org_id other asked now near v)
      ]

  resolve_all-Stamped :
      (state : Caches × Db) (org_id : Text) (asked : ℕ) (rs : List Resolve)
      → All (λ r. r.1 - asked < resolve_throttle) rs
      → Stamped org_id asked state.0
      → Stamped org_id asked (resolve_all rs state).0
  unfolding resolve_all
  resolve_all-Stamped state org_id asked [] h v = v
  resolve_all-Stamped (c, db) org_id asked ((other, now, wall, answer) ∷ rs) h v =
      resolve_all-Stamped (resolve (other, now, wall, answer) (c, db)) org_id asked rs h.1
        (resolve-Stamped c db org_id other asked now wall answer h.0 v)

  -- Once the billing service was asked about an organisation, no call of the next minute asks
  -- about it again, whatever calls for it and for others stand between.
  pub resolve_org_plan-asks_once :
      (c : Caches) (db : Db) (org_id : Text) (asked later : ℕ) (wall wall₁ : ℤ)
      (answer answer₁ : Option (List Item)) (rs : List Resolve)
      → Distinct c.last_resolve_at
      → (resolve_org_plan s local_auth c db org_id asked wall answer).3 ≡ true
      → All (λ r. r.1 - asked < resolve_throttle) rs
      → later - asked < resolve_throttle
      → let state = resolve_all rs (resolve (org_id, asked, wall, answer) (c, db)) in
        (resolve_org_plan s local_auth state.0 state.1 org_id later wall₁ answer₁).3 ≡ false
  resolve_org_plan-asks_once c db org_id asked later wall wall₁ answer answer₁ rs d h w l =
      let first = resolve (org_id, asked, wall, answer) (c, db) in
      let state = resolve_all rs first in
      let stamped : Stamped org_id asked first.0 =
        elim (resolve-cases c db org_id asked wall answer) [
          | inl (_, quiet) ↦ absurd (cc (sym h ∙ quiet))
          | inr (through, asks) ↦
              subst (Stamped org_id asked) (sym through)
                (throttle-asked c org_id asked d (ground (arith, h, asks)))
        ] in
      let kept = resolve_all-Stamped first org_id asked rs w stamped in
      elim (resolve-cases state.0 state.1 org_id later wall₁ answer₁) [
        | inl (_, quiet) ↦ quiet
        | inr (_, asks) ↦ asks ∙ rw (throttle-near state.0 org_id asked later l kept) refl
      ]

  -- When the lookup fails, the stored plan stands: nothing is written, and the answer is the
  -- stored plan, or the free one if none is stored.
  pub resolve_org_plan-keeps :
      (c : Caches) (db : Db) (org_id : Text) (now : ℕ) (wall : ℤ)
      → let out = resolve_org_plan s local_auth c db org_id now wall none in
        (out.1 ≡ db)
        × (out.2 ≡ (
            if local_auth
            then self_host
            else non_empty_or_free (cached_plan s local_auth db org_id)))
  unfolding resolve_org_plan non_empty_or_free fetch_live_plan_slug
  resolve_org_plan-keeps c db org_id now wall =
      ground (arith, text_beq_iff (cached_plan s local_auth db org_id) [])
