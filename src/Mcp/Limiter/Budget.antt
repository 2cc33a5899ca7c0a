-- ===== src/Mcp/Limiter/Budget.antt =====
-- scope.rs, `RateLimiter`: the two windows implement a ledger of all calls that were let through.
use native.Mathlib.Nat.{le_refl}
use sentinel_command.Prelude.{
  ℕ, ◌≤◌, ◌≡◌, refl, sym, ap, subst, ◌∙◌, Bool, true, false, List, [], ◌∷◌, ◌++◌, length,
  if◌then◌else◌, arith, Bool-cases, inl, inr,
}
use sentinel_command.Text.{Text, text_eq, text_beq_iff}
use sentinel_command.Assoc
use sentinel_command.Window.{pop_aged, count}
use sentinel_command.Mcp.Limiter.{
  is_aged, daily_age, minute_age, Windows, prune_if_due, starting_at, check_at, Verdict,
}
use sentinel_command.Mcp.Limiter.Keeping.{
  recent, Keeps, popped-Keeps, pushed-Keeps, popped_recent, window_of,
}
use sentinel_command.Mcp.Limiter.Pruning.{Tracks, prune_if_due-Tracks, put-Tracks}
use sentinel_command.Mcp.Limiter.Ledger.{
  Call, Ledger, instants_of, verdict_on, ledger_verdict, enter, ledger_answers, answers,
  Chronological, Knows, starting_at-Knows,
}

module _ (c : Call) (windows : Windows) where
  abbrev minute_now : List ℕ
  minute_now =
      pop_aged (is_aged minute_age c.now) (window_of (prune_if_due c.now windows).minute c.key_hash)

  abbrev daily_now : List ℕ
  daily_now =
      pop_aged (is_aged daily_age c.now) (window_of (prune_if_due c.now windows).daily c.key_hash)

  abbrev checked : Windows × Verdict
  checked = check_at c.key_hash c.minute_limit c.daily_limit c.now windows

  -- The verdict, by the lengths of the windows.
  check_at-verdict :
      checked.1 ≡ verdict_on c.minute_limit c.daily_limit (length minute_now) (length daily_now)
  unfolding check_at
  check_at-verdict = ground arith

  check_at-entered :
      checked.1.allowed ≡ true
      → checked.0 ≡ record (prune_if_due c.now windows) {
        minute =
            Assoc.insert c.key_hash (minute_now ++ c.now ∷ []) (prune_if_due c.now windows).minute;
        daily =
            Assoc.insert c.key_hash (daily_now ++ c.now ∷ []) (prune_if_due c.now windows).daily;
      }
  unfolding check_at
  check_at-entered h = ground (arith, h)

  check_at-refused :
      checked.1.allowed ≡ false
      → checked.0 ≡ record (prune_if_due c.now windows) {
        minute = Assoc.insert c.key_hash minute_now (prune_if_due c.now windows).minute;
        daily = Assoc.insert c.key_hash daily_now (prune_if_due c.now windows).daily;
      }
  unfolding check_at
  check_at-refused h = ground (arith, h)

  module _ (t : ℕ) (ledger : Ledger) (knows : Knows t ledger windows) (later : t ≤ c.now) where
    pruned : Knows c.now ledger (prune_if_due c.now windows)
    pruned key_hash =
        prune_if_due-Tracks t c.now key_hash (instants_of key_hash ledger) windows later
          (knows key_hash)

    minute_now-Keeps : Keeps minute_age c.now (instants_of c.key_hash ledger) minute_now
    minute_now-Keeps = popped-Keeps minute_age c.now _ _ (pruned c.key_hash).minute_keeps

    daily_now-Keeps : Keeps daily_age c.now (instants_of c.key_hash ledger) daily_now
    daily_now-Keeps = popped-Keeps daily_age c.now _ _ (pruned c.key_hash).daily_keeps

    verdict-eq : checked.1 ≡ ledger_verdict c ledger
    verdict-eq =
        let minute : count (recent minute_age c.now) (instants_of c.key_hash ledger)
            ≡ length minute_now =
          minute_now-Keeps.counted c.now (le_refl c.now)
          ∙ popped_recent minute_age c.now _ (pruned c.key_hash).minute_keeps.ascending in
        let daily : count (recent daily_age c.now) (instants_of c.key_hash ledger)
            ≡ length daily_now =
          daily_now-Keeps.counted c.now (le_refl c.now)
          ∙ popped_recent daily_age c.now _ (pruned c.key_hash).daily_keeps.ascending in
        check_at-verdict
        ∙ sym (ap (λ n. verdict_on c.minute_limit c.daily_limit n (length daily_now)) minute)
        ∙ sym (
            ap
              (verdict_on c.minute_limit c.daily_limit
                (count (recent minute_age c.now) (instants_of c.key_hash ledger)))
              daily)

    -- A call that is refused leaves the popped windows.
    refused-Knows : Knows c.now ledger (record (prune_if_due c.now windows) {
      minute = Assoc.insert c.key_hash minute_now (prune_if_due c.now windows).minute;
      daily = Assoc.insert c.key_hash daily_now (prune_if_due c.now windows).daily;
    })
    refused-Knows key_hash =
        put-Tracks c.now key_hash c.key_hash _ _ minute_now daily_now (prune_if_due c.now windows)
          (pruned key_hash) (λ miss. refl)
          (λ hit.
            subst
              (λ (k : Text).
                Keeps minute_age c.now (instants_of k ledger) minute_now
                × Keeps daily_age c.now (instants_of k ledger) daily_now)
              ((text_beq_iff c.key_hash key_hash).0 hit) (minute_now-Keeps, daily_now-Keeps))

    -- A call that is let through is entered in both.
    entered-Knows :
        Knows c.now ((c.key_hash, c.now) ∷ ledger) (record (prune_if_due c.now windows) {
          minute =
              Assoc.insert c.key_hash
                (minute_now ++ c.now ∷ [])
                (prune_if_due c.now windows).minute;
          daily =
              Assoc.insert c.key_hash (daily_now ++ c.now ∷ []) (prune_if_due c.now windows).daily;
        })
    entered-Knows key_hash =
        put-Tracks c.now key_hash c.key_hash (instants_of key_hash ledger) _
          (minute_now ++ c.now ∷ []) (daily_now ++ c.now ∷ []) (prune_if_due c.now windows)
          (pruned key_hash) (λ miss. rw miss refl)
          (λ hit. rw hit (
            subst
              (λ (k : Text).
                Keeps minute_age c.now (c.now ∷ instants_of k ledger) (minute_now ++ c.now ∷ [])
                × Keeps daily_age c.now (c.now ∷ instants_of k ledger) (daily_now ++ c.now ∷ []))
              ((text_beq_iff c.key_hash key_hash).0 hit)
              (
                pushed-Keeps minute_age c.now _ _ minute_now-Keeps,
                pushed-Keeps daily_age c.now _ _ daily_now-Keeps,
              )))

    step-Knows : Knows c.now (enter c ledger) checked.0
    step-Knows key_hash =
        let same : (ledger_verdict c ledger).allowed ≡ checked.1.allowed =
          ap (λ v. v.allowed) (sym verdict-eq) in
        elim (Bool-cases checked.1.allowed) [
          | inl goes ↦
              subst
                (λ (b : Bool).
                  Tracks c.now key_hash
                    (instants_of key_hash (if b then (c.key_hash, c.now) ∷ ledger else ledger))
                    checked.0)
                (sym (same ∙ goes))
                (subst (Tracks c.now key_hash (instants_of key_hash ((c.key_hash, c.now) ∷ ledger)))
                  (sym (check_at-entered goes)) (entered-Knows key_hash))
          | inr stays ↦
              subst
                (λ (b : Bool).
                  Tracks c.now key_hash
                    (instants_of key_hash (if b then (c.key_hash, c.now) ∷ ledger else ledger))
                    checked.0)
                (sym (same ∙ stays))
                (subst (Tracks c.now key_hash (instants_of key_hash ledger))
                  (sym (check_at-refused stays)) (refused-Knows key_hash))
        ]

answers_from :
    (t : ℕ) (calls : List Call) (ledger : Ledger) (windows : Windows)
    → Knows t ledger windows
    → Chronological t calls
    → answers calls windows ≡ ledger_answers calls ledger
unfolding answers ledger_answers
answers_from t [] ledger windows k h = refl
answers_from t (c ∷ calls) ledger windows k h = rw (verdict-eq c windows t ledger k h.0) (
    ap (λ rest. ledger_verdict c ledger ∷ rest)
      (answers_from c.now calls (enter c ledger) _ (step-Knows c windows t ledger k h.0) h.1))

-- For calls in the order of the clock, whatever keys they are of and whatever limits they bring, the
-- limiter answers each as a ledger of all calls that were let through would, by counting those of the
-- key in the last minute and in the last day: it forgets, in its pops and its sweeps, none that counts.
pub answers-eq-ledger_answers :
    (origin : ℕ) (calls : List Call)
    → Chronological origin calls
    → answers calls (starting_at origin) ≡ ledger_answers calls []
answers-eq-ledger_answers origin calls h =
    answers_from origin calls [] (starting_at origin) (starting_at-Knows origin) h
