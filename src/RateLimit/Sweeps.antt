-- ===== src/RateLimit/Sweeps.antt =====
-- ratelimit.rs: the sweep of the in-process counters does not show.
use native.Mathlib.Nat.{le_trans}
use sentinel_command.Prelude.{
  ℕ, ◌+◌, ◌-◌, ◌≤◌, ◌≡◌, ◌⊎◌, refl, sym, ap, subst, ◌∙◌, Bool, ◌&&◌, List, [], ◌∷◌, Option, none,
  some, length, leb, ltb, if◌then◌else◌, arith, Bool-cases, inl, inr,
}
use sentinel_command.Interfaces.{◌==◌}
use sentinel_command.Text.{Text, text_eq}
use sentinel_command.Assoc.{Assoc, Distinct, retain, keep_if}
use sentinel_command.Assoc
use sentinel_command.Assoc.Laws as AssocLaws
use sentinel_command.RateLimit.{
  hour, max_buckets, Count, MemoryCounters, no_counters, counted, is_due, sweep, check_memory,
}

pub record Request : Type 0 where
  pub bucket : Text
  pub limit : ℕ
  pub window : ℕ
  pub now : ℕ

-- Counters that forget no bucket.
abbrev pub Tally : Type 0
Tally = Text → Option Count

abbrev pub no_tally : Tally
no_tally bucket = none

abbrev pub count_in : Request → Tally → Count
count_in r tally = counted r.window r.now (tally r.bucket)

abbrev pub enter : Request → Tally → Tally
enter r tally bucket = if r.bucket == bucket then some (count_in r tally) else tally bucket

-- The answers to requests in turn, by the tally and by the counters.
unfoldable pub tally_answers : List Request → Tally → List Bool
tally_answers [] tally = []
tally_answers (r ∷ requests) tally =
    leb (count_in r tally).0 r.limit ∷ tally_answers requests (enter r tally)

unfoldable pub answers : List Request → MemoryCounters → List Bool
unfolding check_memory
answers [] counters = []
answers (r ∷ requests) counters =
    let out = check_memory r.bucket r.limit r.window r.now counters in
    out.1 ∷ answers requests out.0

-- The clock does not go back, and no window is longer than an hour.
abbrev pub Admissible : ℕ → List Request → Type 0
Admissible t [] = Unit {0}
Admissible t (r ∷ requests) = (t ≤ r.now) × (r.window ≤ hour) × Admissible r.now requests

abbrev pub IsStale : ℕ → Option Count → Type 0
IsStale t none = ⊥
IsStale t (some entry) = entry.1 + hour ≤ t

-- A bucket is as in the tally, or it was forgotten an hour after its window began.
abbrev pub Agrees : ℕ → Option Count → Option Count → Type 0
Agrees t kept full = (kept ≡ full) ⊎ ((kept ≡ none) × IsStale t full)

pub record Knows (t : ℕ) (tally : Tally) (counters : MemoryCounters) : Type 0 where
  pub distinct : Distinct counters.buckets
  pub agrees : (bucket : Text) → Agrees t (Assoc.get bucket counters.buckets) (tally bucket)

IsStale-mono : (t now : ℕ) (full : Option Count) → t ≤ now → IsStale t full → IsStale now full
IsStale-mono t now none l h = h
IsStale-mono t now (some entry) l h = le_trans h l

Agrees-mono :
    (t now : ℕ) (kept full : Option Count) → t ≤ now → Agrees t kept full → Agrees now kept full
Agrees-mono t now kept full l (inl same) = inl same
Agrees-mono t now kept full l (inr (gone, stale)) = inr (gone, IsStale-mono t now full l stale)

counted-stale :
    (window now : ℕ) (full : Option Count)
    → window ≤ hour
    → IsStale now full
    → counted window now none ≡ counted window now full
counted-stale window now none l h = absurd h
counted-stale window now (some entry) l h = ground (arith, h, l)

counted-Agrees :
    (window now : ℕ) (kept full : Option Count)
    → window ≤ hour
    → Agrees now kept full
    → counted window now kept ≡ counted window now full
counted-Agrees window now kept full l (inl same) = ap (counted window now) same
counted-Agrees window now kept full l (inr (gone, stale)) =
    ap (counted window now) gone ∙ counted-stale window now full l stale

keep_if-Agrees :
    (now : ℕ) (kept full : Option Count)
    → Agrees now kept full
    → Agrees now (keep_if (λ entry. ltb (now - entry.1) hour) kept) full
keep_if-Agrees now none full h = h
keep_if-Agrees now (some entry) full h = elim (Bool-cases (ltb (now - entry.1) hour)) [
  | inl young ↦ rw young h
  | inr old ↦ rw old (elim h [
    | inl same ↦ inr (refl, subst (IsStale now) same (ground (arith, old)))
    | inr (gone, stale) ↦ inr (refl, stale)
  ])
]

sweep-Knows :
    (now : ℕ) (tally : Tally) (counters : MemoryCounters)
    → Knows now tally counters
    → Knows now tally (sweep now counters)
unfolding sweep
sweep-Knows now tally counters v =
    elim (Bool-cases
      (ltb max_buckets (length counters.buckets) && is_due now counters.last_sweep)) [
        | inr waits ↦ rw (waits, sweep) (record { distinct = v.distinct; agrees = v.agrees })
        | inl sweeps ↦
            let young = λ (_ : Text) (entry : Count). ltb (now - entry.1) hour in
            rw (sweeps, sweep)
              (record {
                distinct = AssocLaws.retain-Distinct young counters.buckets v.distinct;
                agrees = λ bucket.
                    subst (λ (kept : Option Count). Agrees now kept (tally bucket))
                      (sym (AssocLaws.get-retain young bucket counters.buckets v.distinct))
                      (keep_if-Agrees now (Assoc.get bucket counters.buckets) (tally bucket)
                        (v.agrees bucket));
              })
      ]

module _ (t : ℕ) (r : Request) (tally : Tally) (counters : MemoryCounters)
    (v : Knows t tally counters) (later : t ≤ r.now) (within : r.window ≤ hour) where
  same_count : counted r.window r.now (Assoc.get r.bucket counters.buckets) ≡ count_in r tally
  same_count = counted-Agrees r.window r.now _ _ within (
      Agrees-mono t r.now (Assoc.get r.bucket counters.buckets) (tally r.bucket) later
        (v.agrees r.bucket))

  insert-Knows : Knows r.now (enter r tally) (record counters {
    buckets =
        Assoc.insert r.bucket
          (counted r.window r.now (Assoc.get r.bucket counters.buckets))
          counters.buckets;
  })
  insert-Knows = record {
    distinct = AssocLaws.insert-Distinct r.bucket _ counters.buckets v.distinct;
    agrees = λ bucket.
        let get =
          AssocLaws.get-insert r.bucket bucket
            (counted r.window r.now (Assoc.get r.bucket counters.buckets)) counters.buckets in
        elim (Bool-cases (r.bucket == bucket)) [
          | inl hit ↦ inl (get ∙ rw hit (ap (λ (c : Count). some c) same_count))
          | inr miss ↦
              let e : Assoc.get bucket (
                    Assoc.insert r.bucket
                      (counted r.window r.now (Assoc.get r.bucket counters.buckets))
                      counters.buckets)
                  ≡ Assoc.get bucket counters.buckets =
                get ∙ rw miss refl in
              subst (λ (kept : Option Count). Agrees r.now kept (enter r tally bucket)) (sym e)
                (rw miss (
                  Agrees-mono t r.now (Assoc.get bucket counters.buckets) (tally bucket) later
                    (v.agrees bucket)))
        ];
  }

answers_from :
    (t : ℕ) (requests : List Request) (tally : Tally) (counters : MemoryCounters)
    → Knows t tally counters
    → Admissible t requests
    → answers requests counters ≡ tally_answers requests tally
unfolding answers tally_answers
answers_from t [] tally counters v a = refl
answers_from t (r ∷ requests) tally counters v a =
    ap
      (λ (c : Count).
        leb c.0 r.limit
        ∷ answers requests (
            sweep r.now (record counters {
              buckets =
                  Assoc.insert r.bucket
                    (counted r.window r.now (Assoc.get r.bucket counters.buckets)) counters.buckets;
            })))
      (same_count t r tally counters v a.0 a.1)
    ∙ ap (λ rest. leb (count_in r tally).0 r.limit ∷ rest)
        (answers_from r.now requests (enter r tally) _
          (sweep-Knows r.now (enter r tally) _ (insert-Knows t r tally counters v a.0 a.1)) a.2)

no_counters-Knows : (t : ℕ) → Knows t no_tally no_counters
unfolding Assoc.get
no_counters-Knows t = record { distinct = tt; agrees = λ bucket. inl refl }

-- For requests in the order of the clock whose windows are at most an hour, the counters answer as
-- counters that forget no bucket would: a sweep lets nothing more through, and nothing less.
pub answers-eq-tally_answers :
    (origin : ℕ) (requests : List Request)
    → Admissible origin requests
    → answers requests no_counters ≡ tally_answers requests no_tally
answers-eq-tally_answers origin requests a =
    answers_from origin requests no_tally no_counters (no_counters-Knows origin) a
