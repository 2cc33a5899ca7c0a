-- ===== src/Mcp/Limiter/Pruning.antt =====
-- scope.rs, `RateLimiter`: pruning loses nothing that counts.
use sentinel_command.Prelude.{
  ℕ, ◌+◌, ◌≤◌, ◌≡◌, refl, sym, ap, subst, ◌∙◌, Bool, true, false, List, [], ◌∷◌, Option, none, some,
  leb, ◌⊎◌, arith, Bool-cases, Option-cases, inl, inr,
}
use sentinel_command.Interfaces.{◌==◌}
use sentinel_command.Text.{Text, text_eq, text_beq_iff, is_empty}
use sentinel_command.Assoc.{Assoc, Distinct, remove_all, member}
use sentinel_command.Assoc
use sentinel_command.Assoc.Laws as AssocLaws
use sentinel_command.Window.{pop_aged, or_nil, count}
use sentinel_command.Mcp.Limiter.{
  is_aged, daily_age, minute_age, pop_daily, dead, prune, Windows, prune_if_due, prune_interval,
}
use sentinel_command.Mcp.Limiter.Keeping.{
  recent, Keeps, Keeps-mono, popped-Keeps, recent_minute, window_of,
}

get-pop_daily :
    (now : ℕ) (key_hash : Text) (daily : Assoc Text (List ℕ))
    → Assoc.get key_hash (pop_daily now daily) ≡ (elim (Assoc.get key_hash daily) [
      | none ↦ none
      | some window ↦ some (pop_aged (is_aged daily_age now) window)
    ])
unfolding pop_daily Assoc.get
get-pop_daily now key_hash [] = refl
get-pop_daily now key_hash ((k, window) ∷ daily) = elim (Bool-cases (k == key_hash)) [
  | inl hit ↦ rw hit refl
  | inr miss ↦ rw miss (get-pop_daily now key_hash daily)
]

pop_daily-Distinct :
    (now : ℕ) (daily : Assoc Text (List ℕ)) → Distinct daily → Distinct (pop_daily now daily)
unfolding pop_daily
pop_daily-Distinct now [] d = tt
pop_daily-Distinct now ((k, window) ∷ daily) d =
    (get-pop_daily now k daily ∙ rw d.0 refl, pop_daily-Distinct now daily d.1)

abbrev is_dead : Option (List ℕ) → Bool
is_dead none = false
is_dead (some window) = is_empty window

member-dead-none :
    (key_hash : Text) (daily : Assoc Text (List ℕ))
    → Assoc.get key_hash daily ≡ none
    → member key_hash (dead daily) ≡ false
unfolding dead member Assoc.get
member-dead-none key_hash [] h = refl
member-dead-none key_hash ((k, window) ∷ daily) h =
    ground (arith, h, member-dead-none key_hash daily)

member-dead :
    (key_hash : Text) (daily : Assoc Text (List ℕ))
    → Distinct daily
    → member key_hash (dead daily) ≡ is_dead (Assoc.get key_hash daily)
unfolding dead member Assoc.get
member-dead key_hash [] d = refl
member-dead key_hash ((k, window) ∷ daily) d = ground (
  arith,
  member-dead key_hash daily d.1,
  member-dead-none k daily d.0,
  text_beq_iff k key_hash,
  ap (λ (j : Text). member j (dead daily)),
)

-- What pruning makes of one key's windows.
pub record Pruned (now : ℕ) (key_hash : Text) (before after : Windows) : Type 0 where
  pub daily_popped :
      window_of after.daily key_hash
      ≡ pop_aged (is_aged daily_age now) (window_of before.daily key_hash)
  pub minute_kept :
      (window_of after.minute key_hash ≡ window_of before.minute key_hash)
      ⊎ ((window_of after.minute key_hash ≡ []) × (window_of after.daily key_hash ≡ []))

is_empty-nil : (xs : List ℕ) → is_empty xs ≡ true → xs ≡ []
is_empty-nil [] h = refl
is_empty-nil (x ∷ xs) h = cc

prune-Pruned :
    (now : ℕ) (key_hash : Text) (windows : Windows)
    → Distinct windows.daily
    → Pruned now key_hash windows (prune now windows)
unfolding prune pop_aged
prune-Pruned now key_hash windows d =
    let popped = pop_daily now windows.daily in
    let lost = member-dead key_hash popped (pop_daily-Distinct now windows.daily d) in
    let found = get-pop_daily now key_hash windows.daily in
    let daily = AssocLaws.get-remove_all (dead popped) key_hash popped in
    let minute = AssocLaws.get-remove_all (dead popped) key_hash windows.minute in
    elim (Option-cases (Assoc.get key_hash windows.daily)) [
      | inl e ↦
          let absent : Assoc.get key_hash popped ≡ none = ground (arith, found, e) in
          let alive : member key_hash (dead popped) ≡ false = lost ∙ ap is_dead absent in
          record {
            daily_popped =
                ap or_nil daily
                ∙ rw alive (ap or_nil absent)
                ∙ sym (ap (λ o. pop_aged (is_aged daily_age now) (or_nil o)) e);
            minute_kept = inl (ap or_nil minute ∙ rw alive refl);
          }
      | inr (window, e) ↦
          let left = pop_aged (is_aged daily_age now) window in
          let here : Assoc.get key_hash popped ≡ some left = ground (arith, found, e) in
          let same = ap (λ o. pop_aged (is_aged daily_age now) (or_nil o)) e in
          elim (Bool-cases (is_empty left)) [
            | inl empty ↦
                let lost_here : member key_hash (dead popped) ≡ true =
                  lost ∙ ap is_dead here ∙ empty in
                let nothing = ap or_nil daily ∙ rw lost_here refl in
                record {
                  daily_popped = nothing ∙ sym (is_empty-nil left empty) ∙ sym same;
                  minute_kept = inr (ap or_nil minute ∙ rw lost_here refl, nothing);
                }
            | inr filled ↦
                let alive : member key_hash (dead popped) ≡ false =
                  lost ∙ ap is_dead here ∙ filled in
                record {
                  daily_popped = ap or_nil daily ∙ rw alive (ap or_nil here) ∙ sym same;
                  minute_kept = inl (ap or_nil minute ∙ rw alive refl);
                }
          ]
    ]

-- The windows know of all that was let through for a key.
pub record Tracks (t : ℕ) (key_hash : Text) (instants : List ℕ) (windows : Windows) : Type 0 where
  pub minute_distinct : Distinct windows.minute
  pub daily_distinct : Distinct windows.daily
  pub minute_keeps : Keeps minute_age t instants (window_of windows.minute key_hash)
  pub daily_keeps : Keeps daily_age t instants (window_of windows.daily key_hash)

nothing_left :
    (now : ℕ) (instants window : List ℕ)
    → Keeps daily_age now instants window
    → window ≡ []
    → Keeps minute_age now instants []
unfolding count
nothing_left now instants window v e = record {
  ascending = tt;
  past = tt;
  counted = λ later l.
      recent_minute later instants
        (v.counted later l ∙ ap (λ (w : List ℕ). count (recent daily_age later) w) e);
}

pub prune_if_due-Tracks :
    (t now : ℕ) (key_hash : Text) (instants : List ℕ) (windows : Windows)
    → t ≤ now
    → Tracks t key_hash instants windows
    → Tracks now key_hash instants (prune_if_due now windows)
unfolding prune_if_due prune
prune_if_due-Tracks t now key_hash instants windows h v =
    let minute = Keeps-mono minute_age t now _ _ h v.minute_keeps in
    let daily = Keeps-mono daily_age t now _ _ h v.daily_keeps in
    elim (Bool-cases (leb (windows.last_prune + prune_interval) now)) [
      | inr waits ↦
          rw (waits, prune_if_due)
            (record {
              minute_distinct = v.minute_distinct;
              daily_distinct = v.daily_distinct;
              minute_keeps = minute;
              daily_keeps = daily;
            })
      | inl due ↦
          let p = prune-Pruned now key_hash windows v.daily_distinct in
          let popped = pop_daily now windows.daily in
          let left : Keeps daily_age now instants (window_of (prune now windows).daily key_hash) =
            subst (Keeps daily_age now instants) (sym p.daily_popped)
              (popped-Keeps daily_age now _ _ daily) in
          rw (due, prune_if_due)
            (record {
              minute_distinct =
                  AssocLaws.remove_all-Distinct (dead popped) windows.minute v.minute_distinct;
              daily_distinct =
                  AssocLaws.remove_all-Distinct (dead popped) popped
                    (pop_daily-Distinct now windows.daily v.daily_distinct);
              minute_keeps = elim p.minute_kept [
                | inl same ↦ subst (Keeps minute_age now instants) (sym same) minute
                | inr (gone, none_daily) ↦
                    subst (Keeps minute_age now instants) (sym gone)
                      (nothing_left now instants _ left none_daily)
              ];
              daily_keeps = left;
            })
    ]

-- Windows are put in for a key: that key's facts are new, another's stay.
pub put-Tracks :
    (now : ℕ) (key_hash k : Text) (before after minute daily : List ℕ) (windows : Windows)
    → Tracks now key_hash before windows
    → ((k == key_hash) ≡ false → after ≡ before)
    → ((k == key_hash) ≡ true → Keeps minute_age now after minute × Keeps daily_age now after daily)
    → Tracks now key_hash after (record windows {
      minute = Assoc.insert k minute windows.minute;
      daily = Assoc.insert k daily windows.daily;
    })
put-Tracks now key_hash k before after minute daily windows v other own = record {
  minute_distinct = AssocLaws.insert-Distinct k minute windows.minute v.minute_distinct;
  daily_distinct = AssocLaws.insert-Distinct k daily windows.daily v.daily_distinct;
  minute_keeps =
      put-Keeps minute_age now key_hash k before after minute windows.minute v.minute_keeps other
        (λ hit. (own hit).0);
  daily_keeps =
      put-Keeps daily_age now key_hash k before after daily windows.daily v.daily_keeps other
        (λ hit. (own hit).1);
}
  where
    put-Keeps :
        (age now : ℕ) (key_hash k : Text) (before after window : List ℕ) (m : Assoc Text (List ℕ))
        → Keeps age now before (window_of m key_hash)
        → ((k == key_hash) ≡ false → after ≡ before)
        → ((k == key_hash) ≡ true → Keeps age now after window)
        → Keeps age now after (window_of (Assoc.insert k window m) key_hash)
    put-Keeps age now key_hash k before after window m v other own =
        let get = AssocLaws.get-insert k key_hash window m in
        elim (Bool-cases (k == key_hash)) [
          | inl hit ↦
              (let e : window_of (Assoc.insert k window m) key_hash ≡ window =
                  ap or_nil get ∙ rw hit refl in
                subst (Keeps age now after) (sym e) (own hit))
          | inr miss ↦
              (let e : window_of (Assoc.insert k window m) key_hash ≡ window_of m key_hash =
                  ap or_nil get ∙ rw miss refl in
                subst (Keeps age now after) (sym e) (
                  subst (λ (x : List ℕ). Keeps age now x (window_of m key_hash)) (sym (other miss))
                    v))
        ]
