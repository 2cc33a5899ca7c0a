-- ===== src/Mcp/Limiter/Keeping.antt =====
-- scope.rs, `RateLimiter`: what a key's windows know of the calls that were let through.
use native.Mathlib.Nat.{le_trans}
use sentinel_command.Prelude.{
  ℕ, ◌≤◌, ◌≡◌, refl, Bool, false, not, List, [], ◌∷◌, ◌++◌, length, All, arith,
}
use sentinel_command.Text.{Text, text_eq}
use sentinel_command.Assoc.{Assoc, Distinct, remove_all, member}
use sentinel_command.Assoc
use sentinel_command.Window.{
  pop_aged, or_nil, count, count-append, count-pop_aged, Ascending, All-pop_aged,
  pop_aged-Ascending, push-Ascending, All-le-push, All-le_mono, count_mono,
}
use sentinel_command.Mcp.Limiter.{is_aged, daily_age, minute_age}

-- The instant is at most `age` before `now`.
abbrev pub recent : ℕ → ℕ → ℕ → Bool
recent age now at = not (is_aged age now at)

-- A window in order that misses no recent instant of those that were let through.
pub record Keeps (age t : ℕ) (instants window : List ℕ) : Type 0 where
  pub ascending : Ascending window
  pub past : All (λ at. at ≤ t) window
  pub counted :
      (later : ℕ) → t ≤ later → count (recent age later) instants ≡ count (recent age later) window

pub Keeps-mono :
    (age t now : ℕ) (instants window : List ℕ)
    → t ≤ now
    → Keeps age t instants window
    → Keeps age now instants window
Keeps-mono age t now instants window h v = record {
  ascending = v.ascending;
  past = All-le_mono t now window h v.past;
  counted = λ later l. v.counted later (le_trans h l);
}

pub popped-Keeps :
    (age now : ℕ) (instants window : List ℕ)
    → Keeps age now instants window
    → Keeps age now instants (pop_aged (is_aged age now) window)
popped-Keeps age now instants window v = record {
  ascending = pop_aged-Ascending _ window v.ascending;
  past = All-pop_aged (λ at. at ≤ now) _ window v.past;
  counted = λ later l. omega (
    arith,
    v.counted later l,
    count-pop_aged (recent age later) (is_aged age now) window (λ at h. ground (arith, h, l)),
  );
}

pub pushed-Keeps :
    (age now : ℕ) (instants window : List ℕ)
    → Keeps age now instants window
    → Keeps age now (now ∷ instants) (window ++ now ∷ [])
unfolding count
pushed-Keeps age now instants window v = record {
  ascending = push-Ascending now window v.ascending v.past;
  past = All-le-push now window v.past;
  counted = λ later l.
      omega (arith, v.counted later l, count-append (recent age later) window (now ∷ []));
}

pub nil-Keeps : (age now : ℕ) → Keeps age now [] []
unfolding count
nil-Keeps age now = record { ascending = tt; past = tt; counted = λ later l. refl }

-- What is left of a window after popping is all recent.
pub popped_recent :
    (age now : ℕ) (window : List ℕ)
    → Ascending window
    → count (recent age now) (pop_aged (is_aged age now) window)
      ≡ length (pop_aged (is_aged age now) window)
unfolding pop_aged count
popped_recent age now [] a = refl
popped_recent age now (at ∷ window) a =
    ground (arith, popped_recent age now window a.1, all_recent at window a.0)
  where
    all_recent :
        (at : ℕ) (window : List ℕ)
        → All (λ later. at ≤ later) window
        → is_aged age now at ≡ false
        → count (recent age now) window ≡ length window
    all_recent at [] a h = refl
    all_recent at (x ∷ window) a h = ground (arith, all_recent at window a.1 h)

-- A key with nothing of the last day has nothing of the last minute.
pub recent_minute :
    (later : ℕ) (instants : List ℕ)
    → count (recent daily_age later) instants ≡ 0
    → count (recent minute_age later) instants ≡ 0
recent_minute later instants h = omega (
  arith,
  count_mono (recent minute_age later) (recent daily_age later) instants (λ at r. ground arith),
  h,
)

abbrev pub window_of : Assoc Text (List ℕ) → Text → List ℕ
window_of windows key_hash = or_nil (Assoc.get key_hash windows)
