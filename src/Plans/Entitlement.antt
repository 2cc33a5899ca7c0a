-- ===== src/Plans/Entitlement.antt =====
-- plans.rs, `fetch_live_plan_slug`: which of the subscription's items decides.
use sentinel_command.Prelude.{
  ◌≡◌, refl, Bool, not, ◌&&◌, List, [], ◌∷◌, Option, none, some, arith, Option-cases, inl, inr,
  if◌then◌else◌,
}
use sentinel_command.Prelude.Int.{ℤ}
use sentinel_command.Text.{Text, codes, is_empty}
use sentinel_command.Plans.{
  Item, free_org, is_status, ends_after, or_slug, live_slug_loop, fetch_live_plan_slug,
}

-- The plan of the first item that names one and passes a test.
abbrev pub first_plan : (Item → Bool) → List Item → Option Text
first_plan test [] = none
first_plan test (item ∷ items) = elim item.slug [
  | none ↦ first_plan test items
  | some slug ↦ if not (is_empty slug) && test item then some slug else first_plan test items
]

abbrev pub is_active : Item → Bool
is_active item = is_status (codes "active") item.status

abbrev pub is_scheduled_end : ℤ → Item → Bool
is_scheduled_end now item =
    is_status (codes "canceled") item.status && ends_after now item.period_end

abbrev or_else : Option Text → Option Text → Option Text
or_else none p = p
or_else (some slug) p = some slug

loop-first :
    (now : ℤ) (items : List Item) (earlier : Option Text)
    → live_slug_loop now items earlier
      ≡ or_slug
          (first_plan is_active items)
          (or_slug (or_else earlier (first_plan (is_scheduled_end now) items)) free_org)
unfolding live_slug_loop
loop-first now [] none = refl
loop-first now [] (some slug) = refl
loop-first now (item ∷ items) earlier = elim (Option-cases item.slug) [
  | inl e ↦ ground (arith, e, loop-first now items earlier)
  | inr (slug, e) ↦ ground (
    arith,
    e,
    loop-first now items earlier,
    loop-first now items none,
    loop-first now items (some slug),
  )
]

-- The one pass over the items finds the plan of the first active item; without one, of the first
-- cancelled item whose period has not ended; and without one, the free plan.
pub fetch_live_plan_slug-first :
    (now : ℤ) (items : List Item)
    → fetch_live_plan_slug now (some items)
      ≡ some (
          or_slug
            (first_plan is_active items)
            (or_slug (first_plan (is_scheduled_end now) items) free_org))
unfolding fetch_live_plan_slug
fetch_live_plan_slug-first now items = rw (loop-first now items none) refl
