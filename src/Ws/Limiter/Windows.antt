-- ===== src/Ws/Limiter/Windows.antt =====
-- ws.rs, `NodeRateLimiter`: what one node's window knows of the instants that were granted.
use native.Mathlib.Nat.{le_trans}
use sentinel_command.Prelude.{
  ℕ, ◌-◌, ◌≤◌, ◌<◌, ◌≡◌, refl, sym, ap, subst, ◌∙◌, Bool, true, false, List, [], ◌∷◌, ◌++◌, none,
  some, length, leb, ltb, if◌then◌else◌, All, arith, Bool-cases, Option-cases, inl, inr,
  length-append,
}
use sentinel_command.Interfaces.{◌==◌}
use sentinel_command.Text.{Text, text_eq}
use sentinel_command.Assoc.{Assoc, Distinct}
use sentinel_command.Assoc
use sentinel_command.Assoc.Laws as AssocLaws
use sentinel_command.Window.{
  pop_aged, back, or_nil, count, count-append, count-pop_aged, length-pop_aged-le, Ascending,
  All-pop_aged, pop_aged-Ascending, push-Ascending, All-le-push, All-le_mono, All-le-back,
  count_zero,
}
use sentinel_command.Ws.Limiter.{LimiterInner, window_length, is_young, sweep}

-- The instant is less than a window before `now`.
abbrev pub young : ℕ → ℕ → Bool
young now at = ltb (now - at) window_length

abbrev pub window_of : LimiterInner → Text → List ℕ
window_of inner node_id = or_nil (Assoc.get node_id inner.windows)

-- A window that is in order, within the budget, and misses no young instant of those granted.
pub record Holds (max t : ℕ) (instants window : List ℕ) : Type 0 where
  pub ascending : Ascending window
  pub past : All (λ at. at ≤ t) window
  pub short : length window ≤ max
  pub counted : (later : ℕ) → t ≤ later → count (young later) instants ≡ count (young later) window

pub record Tracks (max t : ℕ) (node_id : Text) (instants : List ℕ) (inner : LimiterInner)
    : Type 0 where
  pub distinct : Distinct inner.windows
  pub holds : Holds max t instants (window_of inner node_id)

pub Holds-mono :
    (max t now : ℕ) (instants window : List ℕ)
    → t ≤ now
    → Holds max t instants window
    → Holds max now instants window
Holds-mono max t now instants window h v = record {
  ascending = v.ascending;
  past = All-le_mono t now window h v.past;
  short = v.short;
  counted = λ later l. v.counted later (le_trans h l);
}

-- A window whose back is not young has nothing young in it, now or later.
pub aged_window :
    (now later : ℕ) (window : List ℕ)
    → Ascending window
    → is_young now (back window) ≡ false
    → now ≤ later
    → count (young later) window ≡ 0
unfolding count back
aged_window now later [] a h l = refl
aged_window now later (at ∷ window) a h l = elim (Option-cases (back (at ∷ window))) [
  | inl e ↦ absurd (cc (back-cons at window e))
  | inr (last, e) ↦
      count_zero (young later) last (at ∷ window)
        (λ x p.
          let f : is_young now (some last) ≡ false = sym (ap (is_young now) e) ∙ h in ground arith)
        (All-le-back last (at ∷ window) a e)
]
  where
    back-cons : (at : ℕ) (window : List ℕ) → back (at ∷ window) ≡ none → true ≡ false
    back-cons at window e = ground arith

abbrev pub retained : ℕ → LimiterInner → LimiterInner
retained now inner = record {
  windows = Assoc.retain (λ _ window. is_young now (back window)) inner.windows;
  last_sweep = some now;
}

pub window_of-retained :
    (now : ℕ) (inner : LimiterInner) (node_id : Text)
    → Distinct inner.windows
    → window_of (retained now inner) node_id
      ≡ (if is_young now (back (window_of inner node_id)) then window_of inner node_id else [])
unfolding back
window_of-retained now inner node_id d =
    ground
      (arith, AssocLaws.get-retain (λ _ window. is_young now (back window)) node_id inner.windows d)

pub retained-Tracks :
    (max t now : ℕ) (node_id : Text) (instants : List ℕ) (inner : LimiterInner)
    → t ≤ now
    → Tracks max t node_id instants inner
    → Tracks max now node_id instants (retained now inner)
unfolding count
retained-Tracks max t now node_id instants inner h v =
    let window = window_of inner node_id in
    let same = window_of-retained now inner node_id v.distinct in
    record {
      distinct =
          AssocLaws.retain-Distinct (λ _ window. is_young now (back window)) inner.windows
            v.distinct;
      holds = elim (Bool-cases (is_young now (back window))) [
        | inl young_back ↦
            (let e : window_of (retained now inner) node_id ≡ window = same ∙ rw young_back in
              subst (Holds max now instants) (sym e)
                (Holds-mono max t now instants window h v.holds))
        | inr aged ↦
            (let e : window_of (retained now inner) node_id ≡ [] = same ∙ rw aged in
              subst (Holds max now instants) (sym e) (record {
                ascending = tt;
                past = tt;
                short = omega arith;
                counted = λ later l. omega (
                  arith,
                  v.holds.counted later (le_trans h l),
                  aged_window now later window v.holds.ascending aged l,
                );
              }))
      ];
    }

pub sweep-Tracks :
    (max t now : ℕ) (node_id : Text) (instants : List ℕ) (inner : LimiterInner)
    → t ≤ now
    → Tracks max t node_id instants inner
    → Tracks max now node_id instants (sweep inner now)
unfolding sweep
sweep-Tracks max t now node_id instants inner h v =
    elim (Bool-cases (is_young now inner.last_sweep)) [
      | inl recent ↦
          rw (recent, sweep)
            (record { distinct = v.distinct; holds = Holds-mono max t now instants _ h v.holds })
      | inr due ↦ rw (due, sweep) (retained-Tracks max t now node_id instants inner h v)
    ]

-- A window is put in for a node: that node's facts are new, another's stay.
pub put_window-Tracks :
    (max now : ℕ) (node_id n : Text) (before after window : List ℕ) (inner : LimiterInner)
    → Tracks max now node_id before inner
    → ((n == node_id) ≡ false → after ≡ before)
    → ((n == node_id) ≡ true → Holds max now after window)
    → Tracks max now node_id after (record inner { windows = Assoc.insert n window inner.windows })
put_window-Tracks max now node_id n before after window inner v other own = record {
  distinct = AssocLaws.insert-Distinct n window inner.windows v.distinct;
  holds =
      (let put : List ℕ = or_nil (Assoc.get node_id (Assoc.insert n window inner.windows)) in
        let get = AssocLaws.get-insert n node_id window inner.windows in
        elim (Bool-cases (n == node_id)) [
          | inl hit ↦
              (let e : put ≡ window = ground (arith, get) in
                subst (Holds max now after) (sym e) (own hit))
          | inr miss ↦
              (let e : put ≡ window_of inner node_id = ground (arith, get) in
                subst (Holds max now after) (sym e) (
                  subst (λ (x : List ℕ). Holds max now x (window_of inner node_id))
                    (sym (other miss)) v.holds))
        ]);
}

-- Popping aged instants.
unfoldable pub popped : ℕ → List ℕ → List ℕ
popped now window = pop_aged (λ at. leb window_length (now - at)) window

pub popped-Holds :
    (max now : ℕ) (instants window : List ℕ)
    → Holds max now instants window
    → Holds max now instants (popped now window)
unfolding popped
popped-Holds max now instants window v = record {
  ascending = pop_aged-Ascending _ window v.ascending;
  past = All-pop_aged (λ at. at ≤ now) _ window v.past;
  short = le_trans (length-pop_aged-le _ window) v.short;
  counted = λ later l. omega (
    arith,
    v.counted later l,
    count-pop_aged (young later) (λ at. leb window_length (now - at)) window (λ at h. ground arith),
  );
}

pub pushed-Holds :
    (max now : ℕ) (instants window : List ℕ)
    → length window < max
    → Holds max now instants window
    → Holds max now (now ∷ instants) (window ++ now ∷ [])
unfolding count
pushed-Holds max now instants window h v = record {
  ascending = push-Ascending now window v.ascending v.past;
  past = All-le-push now window v.past;
  short = omega (arith, length-append window (now ∷ []));
  counted =
      λ later l. omega (arith, v.counted later l, count-append (young later) window (now ∷ []));
}
