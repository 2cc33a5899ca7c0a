-- ===== src/Hls/Viewer/Loop.antt =====
-- hls.rs, the loop of `flush_viewer_usage` over a database whose upsert adds.
use sentinel_command.Prelude.{
  ℕ, ◌+◌, ◌≡◌, refl, ap, subst, ◌∙◌, Bool, true, false, List, [], ◌∷◌, none, some, if◌then◌else◌,
  All, arith, Bool-cases, inl, inr,
}
use sentinel_command.Prelude.Int.{ℤ, pos, ◌+ℤ◌, leb_ℤ, int_laws}
use sentinel_command.Interfaces.{◌==◌, pair_eq, pair_beq_iff}
use sentinel_command.Text.{text_eq}
use sentinel_command.Assoc.{Assoc, Distinct}
use sentinel_command.Assoc
use sentinel_command.Assoc.Laws as AssocLaws
use sentinel_command.Hls.Viewer.{
  OrgMonth, ViewerUsage, or_zero, UsageDb, Upserted, i32_max, to_i32, record_viewer_second,
  flush_loop,
}

-- The upsert of the statement: as long as the sum is within the column's 32 bits, it adds to the
-- row's total, makes the row if it is missing, and answers with the new total. It touches no other
-- row.
pub record Adds (u : UsageDb) : Type 0 where
  pub answers :
      (db : u.Db) (key : OrgMonth) (delta : ℤ)
      → leb_ℤ (or_zero (u.query db key) +ℤ delta) i32_max ≡ true
      → (u.upsert db key delta).1 ≡ Upserted.total (or_zero (u.query db key) +ℤ delta)
  pub stores :
      (db : u.Db) (key : OrgMonth) (delta : ℤ)
      → leb_ℤ (or_zero (u.query db key) +ℤ delta) i32_max ≡ true
      → u.query (u.upsert db key delta).0 key ≡ some (or_zero (u.query db key) +ℤ delta)
  pub leaves :
      (db : u.Db) (key other : OrgMonth) (delta : ℤ)
      → (key == other) ≡ false
      → u.query (u.upsert db key delta).0 other ≡ u.query db other

-- A pending count: positive, and within the column's 32 bits, also with what is stored.
abbrev pub Fits : (u : UsageDb) → u.Db → OrgMonth × ℤ → Type 0
Fits u db entry =
    (leb_ℤ entry.1 (pos 0) ≡ false)
    × (leb_ℤ entry.1 i32_max ≡ true)
    × (leb_ℤ (or_zero (u.query db entry.0) +ℤ entry.1) i32_max ≡ true)

-- The seconds of a key among those that were recorded.
abbrev pub seconds_in : OrgMonth → List OrgMonth → ℕ
seconds_in key [] = 0
seconds_in key (k ∷ ks) = (if k == key then 1 else 0) + seconds_in key ks

-- Viewers watch on: a second for each of the keys.
abbrev pub record_all : List OrgMonth → ViewerUsage → ViewerUsage
record_all [] v = v
record_all (k ∷ ks) v = record_all ks (record_viewer_second v k.0 k.1)

-- The seconds of a key that are recorded while the rows are written.
abbrev pub seconds_during : OrgMonth → (OrgMonth → List OrgMonth) → List (OrgMonth × ℤ) → ℕ
seconds_during key recorded [] = 0
seconds_during key recorded (entry ∷ rest) =
    seconds_in key (recorded entry.0) + seconds_during key recorded rest

to_i32-IsCount : (n : ℤ) → leb_ℤ n (pos 0) ≡ false → leb_ℤ n i32_max ≡ true → to_i32 n ≡ n
to_i32-IsCount n p q = ground arith

pub head_row :
    (key other : OrgMonth) (delta : ℤ) (rest : List (OrgMonth × ℤ))
    → Assoc.get other ((key, delta) ∷ rest)
      ≡ (if key == other then some delta else Assoc.get other rest)
unfolding Assoc.get
head_row key other delta rest = refl

pending-record_viewer_second :
    (v : ViewerUsage) (k key : OrgMonth)
    → or_zero (Assoc.get key (record_viewer_second v k.0 k.1).pending)
      ≡ or_zero (Assoc.get key v.pending) +ℤ pos (if k == key then 1 else 0)
unfolding record_viewer_second
pending-record_viewer_second v k key =
    ap or_zero (AssocLaws.get-insert k key (or_zero (Assoc.get k v.pending) +ℤ pos 1) v.pending)
    ∙ elim (Bool-cases (k == key)) [
      | inl same ↦ rw same (
          ap (λ (j : OrgMonth). or_zero (Assoc.get j v.pending) +ℤ pos 1)
            ((pair_beq_iff k key).0 same))
      | inr ne ↦ rw ne (omega int_laws)
    ]

pub pending-record_all :
    (ks : List OrgMonth) (v : ViewerUsage) (key : OrgMonth)
    → or_zero (Assoc.get key (record_all ks v).pending)
      ≡ or_zero (Assoc.get key v.pending) +ℤ pos (seconds_in key ks)
pending-record_all [] v key = omega int_laws
pending-record_all (k ∷ ks) v key =
    pending-record_all ks (record_viewer_second v k.0 k.1) key
    ∙ rw (pending-record_viewer_second v k key) (omega int_laws)

pub cached-record_all : (ks : List OrgMonth) (v : ViewerUsage) → (record_all ks v).cached ≡ v.cached
unfolding record_viewer_second
cached-record_all [] v = refl
cached-record_all (k ∷ ks) v = cached-record_all ks (record_viewer_second v k.0 k.1)

module _ (u : UsageDb) (laws : Adds u) where
  open u use {Db, query, upsert}

  -- The row of a key after a round on another key, or on its own.
  round_row :
      (db : Db) (key other : OrgMonth) (delta : ℤ)
      → leb_ℤ (or_zero (query db key) +ℤ delta) i32_max ≡ true
      → or_zero (query (upsert db key delta).0 other)
        ≡ (if key == other then or_zero (query db other) +ℤ delta else or_zero (query db other))
  round_row db key other delta fits = elim (Bool-cases (key == other)) [
    | inl same ↦
        (let e = (pair_beq_iff key other).0 same in
          rw same (
            subst
              (λ (k : OrgMonth).
                or_zero (query (upsert db key delta).0 k) ≡ or_zero (query db k) +ℤ delta)
              e (ap or_zero (laws.stores db key delta fits))))
    | inr ne ↦ rw ne (ap or_zero (laws.leaves db key other delta ne))
  ]

  -- One round of the loop on a count.
  pub flush_round :
      (during : OrgMonth → ViewerUsage → ViewerUsage) (key : OrgMonth) (delta : ℤ)
      (rest : List (OrgMonth × ℤ)) (v : ViewerUsage) (db : Db)
      → Fits u db (key, delta)
      → flush_loop u during ((key, delta) ∷ rest) v db
        ≡ flush_loop u during rest
            (record (during key v) {
              cached = Assoc.insert key (or_zero (query db key) +ℤ delta) (during key v).cached;
            })
            (upsert db key delta).0
  unfolding flush_loop
  flush_round during key delta rest v db w =
      ground (arith, to_i32-IsCount delta w.0 w.1, laws.answers db key delta w.2)

  -- What is left of the snapshot still fits after a round on another key.
  pub round-Fits :
      (db : Db) (key : OrgMonth) (delta : ℤ) (rest : List (OrgMonth × ℤ))
      → Assoc.get key rest ≡ none
      → All (Fits u db) rest
      → All (Fits u (upsert db key delta).0) rest
  unfolding Assoc.get
  round-Fits db key delta [] d w = tt
  round-Fits db key delta ((other, n) ∷ rest) d w = elim (Bool-cases (other == key)) [
    | inl same ↦ absurd (ground (arith, d, same))
    | inr ne ↦
        (let apart : (key == other) ≡ false =
            ground (arith, ne, pair_beq_iff key other, pair_beq_iff other key) in
          (
            (w.0.0, w.0.1, rw (laws.leaves db key other delta apart) w.0.2),
            round-Fits db key delta rest (ground (arith, d, ne)) w.1,
          ))
  ]

  row_and_rest :
      (db : Db) (key other : OrgMonth) (delta : ℤ) (rest : List (OrgMonth × ℤ))
      → leb_ℤ (or_zero (query db key) +ℤ delta) i32_max ≡ true
      → Assoc.get key rest ≡ none
      → or_zero (query (upsert db key delta).0 other) +ℤ or_zero (Assoc.get other rest)
        ≡ or_zero (query db other) +ℤ or_zero (Assoc.get other ((key, delta) ∷ rest))
  row_and_rest db key other delta rest fits d = elim (Bool-cases (key == other)) [
    | inl same ↦
        (let absent : Assoc.get other rest ≡ none =
            subst (λ (k : OrgMonth). Assoc.get k rest ≡ none) ((pair_beq_iff key other).0 same) d in
          rw (absent, head_row key other delta rest, round_row db key other delta fits, same)
            (omega int_laws))
    | inr ne ↦ rw (head_row key other delta rest, round_row db key other delta fits, ne) refl
  ]

  pub flush_loop_row :
      (during : OrgMonth → ViewerUsage → ViewerUsage) (rest : List (OrgMonth × ℤ)) (v : ViewerUsage)
      (db : Db) (other : OrgMonth)
      → Distinct rest
      → All (Fits u db) rest
      → or_zero (query (flush_loop u during rest v db).1 other)
        ≡ or_zero (query db other) +ℤ or_zero (Assoc.get other rest)
  unfolding flush_loop Assoc.get
  flush_loop_row during [] v db other d w = omega int_laws
  flush_loop_row during ((key, delta) ∷ rest) v db other d w =
      ap (λ (out : ViewerUsage × Db × Bool). or_zero (query out.1 other))
        (flush_round during key delta rest v db w.0)
      ∙ flush_loop_row during rest _ _ other d.1 (round-Fits db key delta rest d.0 w.1)
      ∙ row_and_rest db key other delta rest w.0.2 d.0

  pub flush_loop-written :
      (during : OrgMonth → ViewerUsage → ViewerUsage) (rest : List (OrgMonth × ℤ)) (v : ViewerUsage)
      (db : Db)
      → Distinct rest
      → All (Fits u db) rest
      → (flush_loop u during rest v db).2 ≡ true
  unfolding flush_loop
  flush_loop-written during [] v db d w = refl
  flush_loop-written during ((key, delta) ∷ rest) v db d w =
      ap (λ (out : ViewerUsage × Db × Bool). out.2) (flush_round during key delta rest v db w.0)
      ∙ flush_loop-written during rest _ _ d.1 (round-Fits db key delta rest d.0 w.1)

  -- What is pending after the loop: what was, and the seconds recorded during the writes.
  pub flush_loop_pending :
      (recorded : OrgMonth → List OrgMonth) (rest : List (OrgMonth × ℤ)) (v : ViewerUsage) (db : Db)
      (other : OrgMonth)
      → Distinct rest
      → All (Fits u db) rest
      → or_zero
          (Assoc.get other (flush_loop u (λ key. record_all (recorded key)) rest v db).0.pending)
        ≡ or_zero (Assoc.get other v.pending) +ℤ pos (seconds_during other recorded rest)
  unfolding flush_loop
  flush_loop_pending recorded [] v db other d w = omega int_laws
  flush_loop_pending recorded ((key, delta) ∷ rest) v db other d w =
      ap (λ (out : ViewerUsage × Db × Bool). or_zero (Assoc.get other out.0.pending))
        (flush_round (λ k. record_all (recorded k)) key delta rest v db w.0)
      ∙ flush_loop_pending recorded rest _ _ other d.1 (round-Fits db key delta rest d.0 w.1)
      ∙ rw (pending-record_all (recorded key) v other) (omega int_laws)
