-- ===== src/Hls/Tests.antt =====
-- Runs of the caches of hls.rs at concrete inputs.
use sentinel_command.Prelude.{
  ◌+◌, if◌then◌else◌, ◌≡◌, refl, false, List, [], ◌∷◌, none, some, arith,
}
use sentinel_command.Prelude.Int.{ℤ, pos, ◌+ℤ◌, ◌-ℤ◌, leb_ℤ}
use sentinel_command.Text.{Text, text_eq, codes}
use sentinel_command.Interfaces.{pair_eq, ◌==◌}
use sentinel_command.Assoc.{Assoc, total}
use sentinel_command.Assoc
use sentinel_command.OrdMap
use sentinel_command.Hls.SegmentName.{cmp, sequence}
use sentinel_command.Hls.SegmentName.Numeric.{cmp-segment_file, value}
use sentinel_command.Hls.Segments.{
  Bucket, SegmentStore, push_segment, insert_segment, evict_per_camera, evict_global_oldest,
  segment, low_water, sort, candidates, bucket_candidates, candidate_cmp, evict_loop,
  evict_candidate, drop_names,
}
use sentinel_command.Hls.Segments.Invariant.{IsConsistent, get-evict_per_camera}
use sentinel_command.Hls.Segments.Fit.{Pushed, push_segment-Pushed}
use sentinel_command.Hls.Segments.Serve.{segment-push_segment}
use sentinel_command.Hls.Auth.{
  PushNode, cached_push_node, cache_push_node, invalidate_auth_cache, sync, put,
}
use sentinel_command.Hls.Auth.Tags.{
  Event, invalidates, caches_node, run, step, WroteNode, cached_push_node-current,
}
use sentinel_command.Hls.Cache.{HlsCache, cleanup_camera, evict_stale_cameras, access_log_due, secs}
use sentinel_command.Hls.Cache.Cleanup.{Forgotten, cleanup_camera_lem}
use sentinel_command.Hls.Cache.Sweep.{Swept, evict_stale_cameras-Swept}
use sentinel_command.Hls.Cache.AccessLog.{polls, access_log_due_once}
use sentinel_command.Hls.Viewer.{OrgMonth, ViewerUsage, UsageDb, Upserted, i32_max}

abbrev front_door : Text
front_door = codes "cam-1"

abbrev garage : Text
garage = codes "cam-2"

abbrev name_9 : Text
name_9 = codes "segment_99999.ts"

abbrev name_10 : Text
name_10 = codes "segment_100000.ts"

abbrev name_11 : Text
name_11 = codes "segment_100001.ts"

abbrev two_segments : Bucket
two_segments = (name_9, (1 ∷ 2 ∷ 3 ∷ [], 5)) ∷ (name_10, (4 ∷ 5 ∷ [], 6)) ∷ []

-- One camera with two segments, of three and two bytes.
abbrev store : SegmentStore
store = record { cameras = (front_door, two_segments) ∷ []; byte_total = pos 5 }

store-IsConsistent : IsConsistent store
unfolding Assoc.get total cmp sequence
store-IsConsistent = record {
  distinct = (refl, tt);
  sorted = (((refl, tt), (tt, tt)), tt);
  counted = refl;
}

cmp-segment_file_example : cmp name_9 name_10 ≡ Prim.Native.Nat.Ordering.lt
unfolding value
cmp-segment_file_example =
    cmp-segment_file (codes "99999") (codes "100000") (omega arith) (omega arith) (omega arith)

get-evict_per_camera_example :
    Assoc.get front_door (evict_per_camera store front_door 1).cameras
    ≡ some ((name_10, (4 ∷ 5 ∷ [], 6)) ∷ [])
get-evict_per_camera_example =
    get-evict_per_camera store front_door front_door 1 two_segments store-IsConsistent
      (unfold Assoc.get in refl)

push_segment-Pushed_example :
    Pushed garage 2 6 (push_segment store garage name_11 (7 ∷ 8 ∷ []) 2 (pos 6) 9)
push_segment-Pushed_example =
    push_segment-Pushed store garage name_11 (7 ∷ 8 ∷ []) 2 6 9 store-IsConsistent

-- The oldest segment went, though it is another camera's.
push_evicts_oldest :
    segment (push_segment store garage name_11 (7 ∷ 8 ∷ []) 2 (pos 6) 9).0 front_door name_9 ≡ none
unfolding push_segment insert_segment evict_per_camera evict_global_oldest sort candidates
    bucket_candidates candidate_cmp evict_loop evict_candidate drop_names segment low_water cmp
    sequence Assoc.get Assoc.insert Assoc.remove OrdMap.get OrdMap.insert OrdMap.remove ◌+ℤ◌ ◌-ℤ◌
push_evicts_oldest = refl

segment-push_segment_example :
    segment (push_segment store garage name_11 (7 ∷ 8 ∷ []) 2 (pos 100) 9).0 garage name_11
    ≡ some (7 ∷ 8 ∷ [])
unfolding Assoc.get OrdMap.get OrdMap.insert insert_segment ◌+ℤ◌
segment-push_segment_example =
    (segment-push_segment store garage name_11 (7 ∷ 8 ∷ []) 9 2 (pos 100) store-IsConsistent
      (omega arith) refl).0

abbrev node_7 : PushNode
node_7 = record { pk = pos 7; org_id = codes "org"; node_id = codes "node-7" }

-- A key cached before a rotation is not served after it.
abbrev rotation : List Event
rotation = invalidates ∷ caches_node 1 0 (codes "hash") node_7 ∷ []

cached_before :
    (cached_push_node 10 2 (codes "hash") (run 10 (caches_node 1 0 (codes "hash") node_7 ∷ []))).1
    ≡ some node_7
unfolding cached_push_node cache_push_node run step sync put Assoc.get Assoc.insert
cached_before = refl

not_cached_after : (cached_push_node 10 2 (codes "hash") (run 10 rotation)).1 ≡ none
unfolding cached_push_node cache_push_node invalidate_auth_cache run step sync put Assoc.get
    Assoc.insert
not_cached_after = refl

cached_push_node-current_example :
    WroteNode
      (run 10 (caches_node 1 0 (codes "hash") node_7 ∷ [])).current
      (codes "hash")
      node_7
      (caches_node 1 0 (codes "hash") node_7 ∷ [])
cached_push_node-current_example =
    cached_push_node-current 10 (caches_node 1 0 (codes "hash") node_7 ∷ []) 2 (codes "hash") node_7
      cached_before

abbrev cache : HlsCache
cache = record {
  segments = store;
  playlists = (front_door, (codes "#EXTM3U", 5)) ∷ (garage, (codes "#EXTM3U", 8)) ∷ [];
  playlist_updates = (front_door, 3) ∷ [];
  first_playlist_logged = (front_door, tt) ∷ [];
  first_stream_get_logged = [];
  access_logged = [];
}

cleanup_camera_lem_example : Forgotten front_door (cleanup_camera cache front_door)
cleanup_camera_lem_example = (cleanup_camera_lem cache front_door store-IsConsistent).0

-- A minute and seven nanoseconds later the camera is stale.
evict_stale_cameras-Swept_example :
    Swept cache (secs 60 + 7) (evict_stale_cameras cache (secs 60 + 7))
evict_stale_cameras-Swept_example =
    evict_stale_cameras-Swept cache (secs 60 + 7) store-IsConsistent.distinct
      store-IsConsistent.sorted

access_log_due_once_example :
    (access_log_due
      (polls
        (access_log_due cache (codes "u") front_door 100).0
        (record { user_id = codes "v"; camera_id = garage; at = 200 } ∷ []))
      (codes "u")
      front_door
      300).1
    ≡ false
unfolding access_log_due Assoc.get
access_log_due_once_example =
    access_log_due_once cache (codes "u") front_door 100 300
      (record { user_id = codes "v"; camera_id = garage; at = 200 } ∷ []) refl (omega arith)
      (omega arith)

-- A database that holds one total for every organisation and month, as a function. A sum beyond the
-- column is an error, which changes nothing.
abbrev table_db : UsageDb
table_db = record {
  Db = OrgMonth → ℤ;
  query = λ db key. some (db key);
  upsert = λ db key delta.
      if leb_ℤ (db key +ℤ delta) i32_max
      then (
        λ other. if key == other then db other +ℤ delta else db other,
        Upserted.total (db key +ℤ delta),
      )
      else (db, Upserted.failed);
}

abbrev usage : ViewerUsage
usage = record { pending = ((codes "org", codes "2026-07"), pos 3) ∷ []; cached = [] }

-- Two more seconds are watched while the row is written.
abbrev watched_on : OrgMonth → List OrgMonth
watched_on key = key ∷ key ∷ []
