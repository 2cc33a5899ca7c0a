-- ===== src/Hls/Segments.antt =====
-- backend-rs/src/hls.rs, the segment store: `SegmentStore`, `push_segment`, the reads, and the two
-- eviction passes. `now` is the `Instant::now()` of a call, in nanoseconds.

pub mod Invariant
pub mod Sizes
pub mod Listing
pub mod Eviction
pub mod Without
pub mod Fit
pub mod Serve
use sentinel_command.Prelude.{
  ℕ, ◌+◌, ◌-◌, ◌*◌, ◌/◌, Bool, true, false, List, [], ◌∷◌, ◌++◌, map, Option, none, some, Ordering,
  compare, length, take, drop, leb, if◌then◌else◌, suc,
}
use sentinel_command.Prelude.Int.{ℤ, pos, negsuc, ◌+ℤ◌, ◌-ℤ◌, leb_ℤ, sub_ℕ}
use sentinel_command.Interfaces.{then_with}
use sentinel_command.Text.{Text, text_cmp, text_eq, is_empty}
use sentinel_command.Assoc.{Assoc, total}
use sentinel_command.Assoc
use sentinel_command.OrdMap
use sentinel_command.Hls.SegmentName.{SegmentName, segment_order, cmp}

abbrev pub Bytes : Type 0
Bytes = List ℕ

-- A cached segment: its body and the instant of its push.
abbrev pub Segment : Type 0
Segment = Bytes × ℕ

abbrev pub Bucket : Type 0
Bucket = List (SegmentName × Segment)

pub record SegmentStore : Type 0 where
  pub cameras : Assoc Text Bucket
  pub byte_total : ℤ

-- `.entry(camera_id).or_default()`, read.
abbrev pub or_default : Option Bucket → Bucket
or_default none = []
or_default (some bucket) = bucket

abbrev pub body_len : Segment → ℕ
body_len s = length s.0

abbrev pub bucket_bytes : Bucket → ℕ
bucket_bytes bucket = total body_len bucket

-- `recompute_bytes`.
unfoldable pub recompute_bytes : SegmentStore → ℤ
recompute_bytes store = pos (total bucket_bytes store.cameras)

-- The loop of `evict_per_camera` over the doomed names.
unfoldable pub drop_names : List SegmentName → Bucket → ℤ → Bucket × ℤ
drop_names [] bucket bytes = (bucket, bytes)
drop_names (filename ∷ doomed) bucket bytes =
    drop_names doomed (OrdMap.remove segment_order filename bucket)
      (elim (OrdMap.get segment_order filename bucket) [
        | none ↦ bytes
        | some segment ↦ bytes -ℤ pos (body_len segment)
      ])

abbrev pub keys : Bucket → List SegmentName
keys = map λ entry. entry.0

unfoldable pub evict_per_camera : SegmentStore → Text → ℕ → SegmentStore
evict_per_camera store camera_id max_per_camera = elim (Assoc.get camera_id store.cameras) [
  | none ↦ store
  | some bucket ↦
      if leb (length bucket) max_per_camera
      then store
      else (let drop_count = length bucket - max_per_camera in
          let doomed = take drop_count (keys bucket) in
          let left = drop_names doomed bucket store.byte_total in
          record { cameras = Assoc.insert camera_id left.0 store.cameras; byte_total = left.1 })
]

-- `(Instant, String, SegmentName, i64)`, what the global pass sorts.
pub record Candidate : Type 0 where
  pub at : ℕ
  pub camera_id : Text
  pub filename : SegmentName
  pub size : ℕ

-- The derived order of the tuple.
unfoldable pub candidate_cmp : Candidate → Candidate → Ordering
candidate_cmp a b = then_with (compare a.at b.at) (
    then_with (text_cmp a.camera_id b.camera_id)
      (then_with (cmp a.filename b.filename) (compare a.size b.size)))

abbrev pub candidate_leb : Candidate → Candidate → Bool
candidate_leb a b = elim (candidate_cmp a b) [ Ordering.gt ↦ false | _ ↦ true ]

unfoldable pub bucket_candidates : Text → Bucket → List Candidate
bucket_candidates camera_id [] = []
bucket_candidates camera_id ((filename, (body, ts)) ∷ bucket) =
    record { at = ts; camera_id = camera_id; filename = filename; size = length body }
    ∷ bucket_candidates camera_id bucket

unfoldable pub candidates : Assoc Text Bucket → List Candidate
candidates [] = []
candidates ((camera_id, bucket) ∷ cameras) =
    bucket_candidates camera_id bucket ++ candidates cameras

-- `sort()`.
unfoldable pub insert_candidate : Candidate → List Candidate → List Candidate
insert_candidate c [] = c ∷ []
insert_candidate c (d ∷ ds) = elim (candidate_leb c d) [
  | true ↦ c ∷ d ∷ ds
  | false ↦ d ∷ insert_candidate c ds
]

unfoldable pub sort : List Candidate → List Candidate
unfolding insert_candidate
sort [] = []
sort (c ∷ cs) = insert_candidate c (sort cs)

-- `(max_total_bytes as f64 * 0.95) as i64`: 95 per cent, towards zero. The product of floats has
-- this integer part for every cap below 2^48.
unfoldable pub low_water : ℤ → ℤ
low_water (pos n) = pos (n * 95 / 100)
low_water (negsuc n) = sub_ℕ 0 (suc n * 95 / 100)

-- One round of the loop: the store, and 1 if a segment went.
unfoldable pub evict_candidate : Candidate → SegmentStore → SegmentStore × ℕ
evict_candidate c store = elim (Assoc.get c.camera_id store.cameras) [
  | none ↦ (store, 0)
  | some bucket ↦
      (let left = OrdMap.remove segment_order c.filename bucket in
        let cameras =
          if is_empty left
          then Assoc.remove c.camera_id store.cameras
          else Assoc.insert c.camera_id left store.cameras in
        elim (OrdMap.get segment_order c.filename bucket) [
          | none ↦ (record store { cameras = cameras }, 0)
          | some segment ↦
              (record { cameras = cameras; byte_total = store.byte_total -ℤ pos c.size }, 1)
        ])
]

unfoldable pub evict_loop : ℤ → List Candidate → SegmentStore → ℕ → SegmentStore × ℕ
evict_loop low [] store evicted = (store, evicted)
evict_loop low (c ∷ cs) store evicted = elim (leb_ℤ store.byte_total low) [
  | true ↦ (store, evicted)
  | false ↦ evict_loop low cs (evict_candidate c store).0 (evicted + (evict_candidate c store).1)
]

unfoldable pub evict_global_oldest : SegmentStore → ℤ → SegmentStore × ℕ
evict_global_oldest store max_total_bytes =
    if leb_ℤ store.byte_total max_total_bytes
    then (store, 0)
    else evict_loop (low_water max_total_bytes) (sort (candidates store.cameras)) store 0

-- The first half of `push_segment`: the insert, and the change of the total.
unfoldable pub insert_segment : SegmentStore → Text → SegmentName → Bytes → ℕ → SegmentStore
insert_segment store camera_id filename body now =
    let bucket = or_default (Assoc.get camera_id store.cameras) in
    let delta : ℤ = elim (OrdMap.get segment_order filename bucket) [
      | none ↦ pos (length body)
      | some old ↦ pos (length body) -ℤ pos (body_len old)
    ] in
    record {
      cameras =
          Assoc.insert camera_id (OrdMap.insert segment_order filename (body, now) bucket)
            store.cameras;
      byte_total = store.byte_total +ℤ delta;
    }

-- `segment_count`.
unfoldable pub segment_count : SegmentStore → Text → ℕ
segment_count store camera_id = length (or_default (Assoc.get camera_id store.cameras))

unfoldable pub push_segment :
    SegmentStore → Text → SegmentName → Bytes → ℕ → ℤ → ℕ → SegmentStore × ℕ
push_segment store camera_id filename body max_per_camera max_total_bytes now =
    let inserted = insert_segment store camera_id filename body now in
    let trimmed = evict_per_camera inserted camera_id max_per_camera in
    let fitted = (evict_global_oldest trimmed max_total_bytes).0 in
    (fitted, segment_count fitted camera_id)

-- `segment`.
unfoldable pub segment : SegmentStore → Text → SegmentName → Option Bytes
segment store camera_id filename =
    elim (OrdMap.get segment_order filename (or_default (Assoc.get camera_id store.cameras))) [
      | none ↦ none
      | some s ↦ some s.0
    ]

pub data Snapshot : Type 0 where
  no_camera : Snapshot
  segments : List Bytes → Snapshot

unfoldable pub snapshot_recent : SegmentStore → Text → ℕ → Snapshot
snapshot_recent store camera_id count =
    let bucket = or_default (Assoc.get camera_id store.cameras) in
    if is_empty bucket
    then no_camera
    else segments (map (λ entry. entry.1.0) (drop (length bucket - count) bucket))
