-- ===== src/Plans.antt =====
-- backend-rs/src/plans.rs: which plan an organisation is on. The settings table, the answer of the
-- billing service and the parsing of times are parameters; instants are milliseconds of one clock.
pub mod Cap
pub mod Effective
pub mod Throttle
pub mod Entitlement
mod Tests
use sentinel_command.Prelude.{
  ℕ, ◌+◌, ◌-◌, ◌≡◌, Bool, true, false, not, ◌&&◌, ◌||◌, List, [], ◌∷◌, ◌++◌, Option, none, some,
  length, leb, ltb, if◌then◌else◌, nat_beq,
}
use sentinel_command.Prelude.Int.{ℤ, pos, leb_ℤ, ◌-ℤ◌}
use sentinel_command.Interfaces.{◌==◌}
use sentinel_command.Text.{Text, text_eq, codes, is_empty}
use sentinel_command.Assoc.{Assoc, retain}
use sentinel_command.Assoc

abbrev pub free_org : Text
free_org = codes "free_org"

abbrev pub self_host : Text
self_host = codes "self_host"

abbrev pub true_text : Text
true_text = codes "true"

abbrev pub is_paid_plan : Text → Bool
is_paid_plan plan = plan == codes "pro" || plan == codes "pro_plus" || plan == self_host

abbrev pub resolve_throttle : ℕ
resolve_throttle = 60_000

abbrev pub effective_ttl : ℕ
effective_ttl = 30_000

abbrev pub resolve_prune_interval : ℕ
resolve_prune_interval = 600_000

-- `PAYMENT_GRACE_DAYS` in milliseconds.
abbrev pub payment_grace : ℤ
payment_grace = pos 604_800_000

pub record Caches : Type 0 where
  pub last_resolve_at : Assoc Text ℕ
  pub last_prune_at : Option ℕ
  pub effective : Assoc Text (ℕ × Text)

unfoldable pub invalidate_effective_plan_cache : Option Text → Caches → Caches
invalidate_effective_plan_cache (some org_id) c = record c {
  effective = Assoc.remove org_id c.effective;
}
invalidate_effective_plan_cache none c = record c { effective = [] }

unfoldable pub reset_resolve_throttle : Caches → Caches
reset_resolve_throttle c = record c { last_resolve_at = []; last_prune_at = none }

-- `if let Some(last) = at { now - last < span }`.
abbrev pub is_within : Option ℕ → ℕ → ℕ → Bool
is_within none now span = false
is_within (some last) now span = ltb (now - last) span

unfoldable pub prune_resolve_cache : Caches → ℕ → Caches
prune_resolve_cache c now =
    if is_within c.last_prune_at now resolve_prune_interval then c else record c {
      last_prune_at = some now;
      last_resolve_at = retain (λ _ at. ltb (now - at) resolve_throttle) c.last_resolve_at;
    }

-- The critical section of `resolve_org_plan`: whether the organisation is throttled.
unfoldable pub throttle : Caches → Text → ℕ → Caches × Bool
unfolding prune_resolve_cache
throttle c org_id now =
    let pruned = prune_resolve_cache c now in
    if is_within (Assoc.get org_id pruned.last_resolve_at) now resolve_throttle
    then (pruned, true)
    else (record pruned { last_resolve_at = Assoc.insert org_id now pruned.last_resolve_at }, false)

-- An item of the subscription as `fetch_live_plan_slug` reads it.
pub record Item : Type 0 where
  pub status : Option Text
  pub slug : Option Text
  pub period_end : Option ℤ

abbrev pub is_status : Text → Option Text → Bool
is_status name none = false
is_status name (some status) = status == name

abbrev pub ends_after : ℤ → Option ℤ → Bool
ends_after now none = false
ends_after now (some period_end) = not (leb_ℤ period_end now)

abbrev pub or_slug : Option Text → Text → Text
or_slug none other = other
or_slug (some slug) other = slug

-- The loop over the items, with the first entitled cancelled plan so far.
unfoldable pub live_slug_loop : ℤ → List Item → Option Text → Text
live_slug_loop now [] entitled_canceled = or_slug entitled_canceled free_org
live_slug_loop now (item ∷ items) entitled_canceled = elim item.slug [
  | none ↦ live_slug_loop now items entitled_canceled
  | some slug ↦ elim (is_empty slug) [
    | true ↦ live_slug_loop now items entitled_canceled
    | false ↦ elim (is_status (codes "active") item.status) [
      | true ↦ slug
      | false ↦ elim entitled_canceled [
        | some earlier ↦ live_slug_loop now items (some earlier)
        | none ↦ elim (is_status (codes "canceled") item.status && ends_after now item.period_end) [
          | true ↦ live_slug_loop now items (some slug)
          | false ↦ live_slug_loop now items none
        ]
      ]
    ]
  ]
]

-- What the billing service answered: `none` for any failure of the lookup.
unfoldable pub fetch_live_plan_slug : ℤ → Option (List Item) → Option Text
unfolding live_slug_loop
fetch_live_plan_slug now none = none
fetch_live_plan_slug now (some items) = some (live_slug_loop now items none)

-- The settings table: `get` with its default (`none` for an error), `set` and whether it failed.
pub record Settings : Type 1 where
  pub Db : Type 0
  pub get : Db → Text → Text → Text → Option (Option Text)
  pub set : Db → Text → Text → Text → Db

-- `.unwrap_or_default().unwrap_or_default()`.
abbrev pub or_blank : Option (Option Text) → Text
or_blank none = []
or_blank (some none) = []
or_blank (some (some value)) = value

unfoldable pub non_empty_or_free : Text → Text
non_empty_or_free cached = if is_empty cached then free_org else cached

-- The clocks that a call reads, in the order in which it reads them.
pub record Times : Type 0 where
  pub reads_at : ℕ
  pub resolves_at : ℕ
  pub wall : ℤ
  pub grace_wall : ℤ
  pub caches_at : ℕ

-- What other tasks do to the caches and to the table while a call of `effective_plan_for_caps` is in
-- flight: before it resolves the plan; while it does and until it caches its answer; and to the
-- table before the flag of the grace period is read, and between the flag and its time.
pub record Others (Db : Type 0) : Type 0 where
  pub before : Caches → Caches
  pub during : Caches → Caches
  pub resolved : Db → Db
  pub flagged : Db → Db

module _ (s : Settings) (local_auth : Bool) where
  open s use {Db, get, set}

  abbrev pub cached_plan : Db → Text → Text
  cached_plan db org_id = or_blank (get db org_id (codes "org_plan") [])

  -- The plan, and whether the billing service was asked.
  unfoldable pub resolve_org_plan :
      Caches → Db → Text → ℕ → ℤ → Option (List Item) → Caches × Db × Text × Bool
  unfolding throttle fetch_live_plan_slug non_empty_or_free
  resolve_org_plan c db org_id now wall answer =
      if local_auth
      then (c, db, self_host, false)
      else (let cached = cached_plan db org_id in
          if is_paid_plan cached
          then (c, db, cached, false)
          else (let out = throttle c org_id now in
              if out.1
              then (out.0, db, non_empty_or_free cached, false)
              else elim (fetch_live_plan_slug wall answer) [
                | none ↦ (out.0, db, non_empty_or_free cached, true)
                | some live_slug ↦ (
                  out.0,
                  if live_slug == cached then db else set db org_id (codes "org_plan") live_slug,
                  live_slug,
                  true,
                )
              ]))

-- `cache_effective` at the instant `now`.
unfoldable pub cache_effective : Caches → Text → Text → ℕ → Caches
cache_effective c org_id slug now =
    let effective = Assoc.insert org_id (now + effective_ttl, slug) c.effective in
    record c {
      effective =
          if ltb 10_000 (length effective)
          then retain (λ _ entry. ltb now entry.0) effective
          else effective;
    }

-- `filter(|(expiry, _)| *expiry > now)`.
abbrev pub unexpired : ℕ → Option (ℕ × Text) → Option Text
unexpired now none = none
unexpired now (some (expiry, slug)) = if ltb now expiry then some slug else none

module _ (s : Settings) (local_auth : Bool) (parse_past_due_at : Text → Option ℤ) where
  open s use {Db, get, set}

  -- What the grace period makes of the nominal plan. The table is read twice.
  abbrev pub capped_plan : Db → Db → Text → ℤ → Text → Text
  capped_plan db later org_id wall nominal =
      let past_due = or_blank (get db org_id (codes "payment_past_due") (codes "false")) in
      let past_due_at = or_blank (get later org_id (codes "payment_past_due_at") []) in
      if local_auth || not (past_due == true_text) || is_empty past_due_at
      then nominal
      else elim (parse_past_due_at past_due_at) [
        | none ↦ nominal
        | some dt ↦ if leb_ℤ (wall -ℤ dt) payment_grace then nominal else free_org
      ]

  -- The new caches and table, and the plan. The read of the cache, the resolution and the write of the
  -- cache are steps of their own, with what others do between them.
  unfoldable pub effective_plan_for_caps :
      Caches → Db → Text → Bool → Times → Others Db → Option (List Item) → Caches × Db × Text
  unfolding resolve_org_plan cache_effective
  effective_plan_for_caps c db org_id use_cache t others answer =
      elim (if use_cache then unexpired t.reads_at (Assoc.get org_id c.effective) else none) [
        | some slug ↦ (c, db, slug)
        | none ↦
            (let started = others.before c in
              let out =
                resolve_org_plan s local_auth started db org_id t.resolves_at t.wall answer in
              let db₁ = others.resolved out.1 in
              let db₂ = others.flagged db₁ in
              let slug = capped_plan db₁ db₂ org_id t.grace_wall out.2 in
              (cache_effective (others.during out.0) org_id slug t.caches_at, db₂, slug))
      ]
