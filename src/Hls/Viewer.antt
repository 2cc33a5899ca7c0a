-- ===== src/Hls/Viewer.antt =====
-- backend-rs/src/hls.rs, `ViewerUsage`: the seconds watched by each organisation in a month. The
-- month of a call, `current_year_month()`, is an argument. The counters are 64-bit integers that
-- count single seconds, and are modelled without a bound.
pub mod Flush
pub mod Loop
use sentinel_command.Prelude.{
  ℕ, ◌+◌, Bool, true, false, not, List, [], ◌∷◌, Option, none, some, length, if◌then◌else◌, leb,
}
use sentinel_command.Prelude.Int.{ℤ, pos, negsuc, ◌+ℤ◌, leb_ℤ}
use sentinel_command.Interfaces.{◌==◌, pair_eq}
use sentinel_command.Text.{Text, text_eq, is_empty}
use sentinel_command.Assoc.{Assoc}
use sentinel_command.Assoc

-- `(org_id, "YYYY-MM")`.
abbrev pub OrgMonth : Type 0
OrgMonth = Text × Text

pub record ViewerUsage : Type 0 where
  pub pending : Assoc OrgMonth ℤ
  pub cached : Assoc OrgMonth ℤ

abbrev pub or_zero : Option ℤ → ℤ
or_zero none = pos 0
or_zero (some n) = n

unfoldable pub sum_values : Assoc OrgMonth ℤ → ℤ
sum_values [] = pos 0
sum_values ((k, n) ∷ m) = n +ℤ sum_values m

unfoldable pub pending_viewer_seconds : ViewerUsage → ℤ
unfolding sum_values
pending_viewer_seconds v = sum_values v.pending

unfoldable pub forget_org_viewer_usage : ViewerUsage → Text → ViewerUsage
forget_org_viewer_usage v org_id = record {
  pending = Assoc.retain (λ key _. not (key.0 == org_id)) v.pending;
  cached = Assoc.retain (λ key _. not (key.0 == org_id)) v.cached;
}

unfoldable pub record_viewer_second : ViewerUsage → Text → Text → ViewerUsage
record_viewer_second v org_id month =
    let count = or_zero (Assoc.get (org_id, month) v.pending) in
    record v { pending = Assoc.insert (org_id, month) (count +ℤ pos 1) v.pending }

unfoldable pub cached_viewer_seconds : ViewerUsage → Text → Text → Option ℤ
cached_viewer_seconds v org_id month = elim (Assoc.get (org_id, month) v.cached) [
  | none ↦ none
  | some seconds ↦ some (seconds +ℤ or_zero (Assoc.get (org_id, month) v.pending))
]

unfoldable pub store_cached_viewer_seconds : ViewerUsage → Text → Text → ℤ → ViewerUsage × ℤ
store_cached_viewer_seconds v org_id month seconds = (
  record v { cached = Assoc.insert (org_id, month) seconds v.cached },
  seconds +ℤ or_zero (Assoc.get (org_id, month) v.pending),
)

-- What the database answers to the upsert: the new total, no row, or an error.
pub data Upserted : Type 0 where
  total : ℤ → Upserted
  no_row : Upserted
  failed : Upserted

-- The database is not code of the repository: its state, the query of the stored total (`none` for
-- no row or an error, which the code counts as 0) and the upsert are parameters.
pub record UsageDb : Type 1 where
  pub Db : Type 0
  pub query : Db → OrgMonth → Option ℤ
  pub upsert : Db → OrgMonth → ℤ → Db × Upserted

abbrev pub i32_max : ℤ
i32_max = pos 2_147_483_647

-- `i32::try_from(delta).unwrap_or(i32::MAX)`.
abbrev pub to_i32 : ℤ → ℤ
to_i32 n =
    if leb_ℤ (negsuc 2_147_483_647) n then (if leb_ℤ n i32_max then n else i32_max) else i32_max

module _ (u : UsageDb) where
  open u use {Db, query, upsert}

  unfoldable pub warm_viewer_seconds : ViewerUsage → Db → Text → Text → ViewerUsage × ℤ
  unfolding cached_viewer_seconds store_cached_viewer_seconds
  warm_viewer_seconds v db org_id month = elim (cached_viewer_seconds v org_id month) [
    | some seconds ↦ (v, seconds)
    | none ↦ store_cached_viewer_seconds v org_id month (or_zero (query db (org_id, month)))
  ]

  -- The loop over the snapshot: the counters, the database, and whether every write went through.
  -- Each write is awaited; `during` is what other tasks do to the counters while a key's row is
  -- written.
  unfoldable pub flush_loop :
      (OrgMonth → ViewerUsage → ViewerUsage)
      → List (OrgMonth × ℤ)
      → ViewerUsage
      → Db
      → ViewerUsage × Db × Bool
  flush_loop during [] v db = (v, db, true)
  flush_loop during ((key, delta) ∷ rest) v db = elim (leb_ℤ delta (pos 0)) [
    | true ↦ flush_loop during rest v db
    | false ↦
        (let waited = during key v in
          elim (upsert db key (to_i32 delta)).1 [
            | total n ↦
                flush_loop during rest (record waited { cached = Assoc.insert key n waited.cached })
                  (upsert db key (to_i32 delta)).0
            | no_row ↦ flush_loop during rest waited (upsert db key (to_i32 delta)).0
            | failed ↦ (waited, (upsert db key (to_i32 delta)).0, false)
          ])
  ]

  -- `flush_viewer_usage`, and the number of rows that it reports. The pending counts are drained in
  -- one critical section, before the first write.
  unfoldable pub flush_viewer_usage :
      (OrgMonth → ViewerUsage → ViewerUsage) → ViewerUsage → Db → ViewerUsage × Db × ℕ
  unfolding flush_loop
  flush_viewer_usage during v db =
      if is_empty v.pending
      then (v, db, 0)
      else (let out = flush_loop during v.pending (record v { pending = [] }) db in
          (out.0, out.1, if out.2 then length v.pending else 0))
