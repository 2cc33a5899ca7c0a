-- ===== src/Ws/Limiter/Budget.antt =====
-- ws.rs, `NodeRateLimiter`: no node gets more than its budget in a window.
use native.Mathlib.Nat.{le_refl}
use sentinel_command.Prelude.{
  ℕ, ◌-◌, ◌≤◌, ◌<◌, ◌≡◌, refl, sym, subst, ◌∙◌, true, not, ◌&&◌, List, [], ◌∷◌, ◌++◌, length, leb,
  ltb, if◌then◌else◌, All, arith, Bool-cases, inl, inr,
}
use sentinel_command.Interfaces.{◌==◌}
use sentinel_command.Text.{Text, text_eq, text_beq_iff}
use sentinel_command.Assoc.{Assoc, Distinct}
use sentinel_command.Assoc
use sentinel_command.Window.{pop_aged, count, count-le-length, Ascending}
use sentinel_command.Ws.Limiter.{LimiterInner, start, window_length, sweep, allow}
use sentinel_command.Ws.Limiter.Windows.{
  young, window_of, Holds, Tracks, Holds-mono, sweep-Tracks, put_window-Tracks, popped,
  popped-Holds, pushed-Holds,
}

-- A call: the node, and the instant.
abbrev pub Call : Type 0
Call = Text × ℕ

module _ (max : ℕ) where
  -- The limiter after a history of calls, the last one first.
  unfoldable pub run : List Call → LimiterInner
  run [] = start
  run ((node_id, now) ∷ calls) = (allow max (run calls) node_id now).0

  -- The instants at which a node's calls were let through.
  pub granted : Text → List Call → List ℕ
  unfolding run
  granted node_id [] = []
  granted node_id ((n, now) ∷ calls) =
      if (n == node_id) && (allow max (run calls) n now).1
      then now ∷ granted node_id calls
      else granted node_id calls

-- The clock does not go back.
abbrev pub Chronological : ℕ → List Call → Type 0
Chronological now [] = Unit
Chronological now ((n, t) ∷ calls) = (t ≤ now) × Chronological t calls

module _ (max : ℕ) (inner : LimiterInner) (n node_id : Text) (now : ℕ) (instants : List ℕ) where
  abbrev window_now : List ℕ
  window_now = popped now (window_of (sweep inner now) n)

  own_window :
      Tracks max now node_id instants (sweep inner now)
      → (n == node_id) ≡ true
      → Holds max now instants window_now
  own_window v hit = popped-Holds max now instants _ (
      subst (λ (k : Text). Holds max now instants (window_of (sweep inner now) k))
        (sym ((text_beq_iff n node_id).0 hit)) v.holds)

  allow-Tracks :
      Tracks max now node_id instants (sweep inner now)
      → Tracks max now node_id
          (if (n == node_id) && (allow max inner n now).1 then now ∷ instants else instants)
          (allow max inner n now).0
  unfolding allow popped
  allow-Tracks v = elim (Bool-cases (leb max (length window_now))) [
    | inl full ↦
        rw (full, allow)
          (put_window-Tracks max now node_id n instants _ window_now (sweep inner now) v
            (λ miss. ground arith) (λ hit. rw hit (own_window v hit)))
    | inr room ↦
        rw (room, allow)
          (put_window-Tracks max now node_id n instants _ (window_now ++ now ∷ []) (sweep inner now)
            v (λ miss. rw miss)
            (λ hit.
              rw hit (pushed-Holds max now instants window_now (ground arith) (own_window v hit))))
  ]

run-Tracks :
    (max now : ℕ) (node_id : Text) (calls : List Call)
    → Chronological now calls
    → Tracks max now node_id (granted max node_id calls) (run max calls)
unfolding run granted count Assoc.get
run-Tracks max now node_id [] c = record {
  distinct = tt;
  holds = record { ascending = tt; past = tt; short = omega arith; counted = λ later l. refl };
}
run-Tracks max now node_id ((n, t) ∷ calls) c =
    let before = run-Tracks max t node_id calls c.1 in
    let v = allow-Tracks max (run max calls) n node_id t (granted max node_id calls) (
      sweep-Tracks max t t node_id (granted max node_id calls) (run max calls) (le_refl t)
        before) in
    record { distinct = v.distinct; holds = Holds-mono max t now _ _ c.0 v.holds }

-- What is left of an ascending window after popping is all young.
popped-young :
    (now : ℕ) (window : List ℕ)
    → Ascending window
    → All (λ at. at ≤ now) window
    → count (young now) (popped now window) ≡ length (popped now window)
unfolding popped pop_aged count
popped-young now [] a h = refl
popped-young now (at ∷ window) a h =
    ground (arith, popped-young now window a.1 h.1, all_young now at window a.0)
  where
    all_young :
        (now at : ℕ) (window : List ℕ)
        → All (λ later. at ≤ later) window
        → now - at < window_length
        → count (young now) window ≡ length window
    all_young now at [] a h = refl
    all_young now at (x ∷ window) a h = ground (arith, all_young now at window a.1 h)

allow-eq-room :
    (max : ℕ) (inner : LimiterInner) (node_id : Text) (now : ℕ)
    → (allow max inner node_id now).1
      ≡ not (leb max (length (popped now (window_of (sweep inner now) node_id))))
unfolding allow popped
allow-eq-room max inner node_id now = ground arith

-- For calls in the order of the clock, a node's call is let through exactly when fewer than its
-- budget of its own earlier calls were let through in the minute before, whatever calls other
-- nodes made and whenever the limiter swept.
pub allow_iff_room :
    (max now : ℕ) (node_id : Text) (calls : List Call)
    → Chronological now calls
    → (allow max (run max calls) node_id now).1
      ≡ ltb (count (young now) (granted max node_id calls)) max
allow_iff_room max now node_id calls c =
    let instants = granted max node_id calls in
    let swept =
      sweep-Tracks max now now node_id instants (run max calls) (le_refl now)
        (run-Tracks max now node_id calls c) in
    let window = window_of (sweep (run max calls) now) node_id in
    let left = popped-Holds max now instants window swept.holds in
    let lengths : count (young now) instants ≡ length (popped now window) =
      left.counted now (le_refl now)
      ∙ popped-young now window swept.holds.ascending swept.holds.past in
    allow-eq-room max (run max calls) node_id now
    ∙ rw lengths (not_leb max (length (popped now window)))
  where
    not_leb : (a b : ℕ) → not (leb a b) ≡ ltb b a
    not_leb a b = ground arith

-- So no node gets more than its budget through in any minute.
pub granted-le-max :
    (max now : ℕ) (node_id : Text) (calls : List Call)
    → Chronological now calls
    → count (young now) (granted max node_id calls) ≤ max
granted-le-max max now node_id calls c =
    let v = run-Tracks max now node_id calls c in
    omega (
      arith,
      v.holds.counted now (le_refl now),
      count-le-length (young now) (window_of (run max calls) node_id),
      v.holds.short,
    )
