-- ===== src/Hls/Cache.antt =====
-- backend-rs/src/hls.rs, `HlsCache` without its auth and viewer parts: the segments, the playlists
-- and the one-shot flags of each camera, the access log, and the sweeps over them.

pub mod Cleanup
pub mod Sweep
pub mod AccessLog
use sentinel_command.Prelude.{
  ℕ, ◌+◌, ◌-◌, ◌*◌, ◌%◌, ◌^◌, Bool, true, false, not, ◌&&◌, ◌||◌, List, [], ◌∷◌, map, Option, none,
  some, length, take, leb, ltb, nat_beq, if◌then◌else◌,
}
use sentinel_command.Prelude.Int.{ℤ, pos, ◌-ℤ◌}
use sentinel_command.Interfaces.{pair_eq}
use sentinel_command.Text.{Text, text_eq, is_empty}
use sentinel_command.Assoc.{Assoc, total}
use sentinel_command.Assoc
use sentinel_command.Hls.Segments.{Bucket, SegmentStore, body_len, bucket_bytes, recompute_bytes}

pub record HlsCache : Type 0 where
  pub segments : SegmentStore
  pub playlists : Assoc Text (Text × ℕ)
  pub playlist_updates : Assoc Text ℕ
  pub first_playlist_logged : Assoc Text (Unit {0})
  pub first_stream_get_logged : Assoc Text (Unit {0})
  pub access_logged : Assoc (Text × Text) ℕ

-- Instants and durations count nanoseconds.
abbrev pub secs : ℕ → ℕ
secs n = n * 1_000_000_000

abbrev pub cache_max_cameras : ℕ
cache_max_cameras = 500

abbrev pub access_log_interval : ℕ
access_log_interval = secs 300

abbrev pub access_log_max_entries : ℕ
access_log_max_entries = 10_000

abbrev pub stale_camera_age : ℕ
stale_camera_age = secs 60

unfoldable pub cleanup_camera : HlsCache → Text → HlsCache
cleanup_camera c camera_id = record c {
  segments = record {
    cameras = Assoc.remove camera_id c.segments.cameras;
    byte_total = elim (Assoc.get camera_id c.segments.cameras) [
      | none ↦ c.segments.byte_total
      | some bucket ↦ c.segments.byte_total -ℤ pos (bucket_bytes bucket)
    ];
  };
  playlists = Assoc.remove camera_id c.playlists;
  playlist_updates = Assoc.remove camera_id c.playlist_updates;
  first_playlist_logged = Assoc.remove camera_id c.first_playlist_logged;
  first_stream_get_logged = Assoc.remove camera_id c.first_stream_get_logged;
}

-- `.map(|(_, ts)| *ts).max()`.
unfoldable pub newest : Bucket → Option ℕ
newest [] = none
newest ((filename, (body, ts)) ∷ bucket) = elim (newest bucket) [
  | none ↦ some ts
  | some other ↦ some (if leb ts other then other else ts)
]

abbrev pub is_before : Option ℕ → ℕ → Bool
is_before none cutoff = false
is_before (some at) cutoff = ltb at cutoff

unfoldable pub is_stale : ℕ → Bucket → Bool
unfolding newest
is_stale cutoff bucket = is_empty bucket || is_before (newest bucket) cutoff

unfoldable pub stale_cameras : ℕ → Assoc Text Bucket → List Text
stale_cameras cutoff [] = []
stale_cameras cutoff ((camera_id, bucket) ∷ cameras) =
    let rest = stale_cameras cutoff cameras in
    if is_stale cutoff bucket then camera_id ∷ rest else rest

unfoldable pub evict_stale_cameras : HlsCache → ℕ → HlsCache
evict_stale_cameras c now =
    let stale = stale_cameras (now - stale_camera_age) c.segments.cameras in
    let cameras = Assoc.remove_all stale c.segments.cameras in
    record c {
      segments = record {
        cameras = cameras;
        byte_total =
            recompute_bytes (record { cameras = cameras; byte_total = c.segments.byte_total });
      };
      playlists = Assoc.remove_all stale c.playlists;
      playlist_updates = Assoc.remove_all stale c.playlist_updates;
      first_playlist_logged = Assoc.remove_all stale c.first_playlist_logged;
      first_stream_get_logged = Assoc.remove_all stale c.first_stream_get_logged;
    }

-- `by_age`, and its stable `sort_by_key(|(_, ts)| *ts)`.
unfoldable pub by_age : Assoc Text (Text × ℕ) → Assoc Text ℕ
by_age [] = []
by_age ((camera_id, (text, ts)) ∷ playlists) = (camera_id, ts) ∷ by_age playlists

unfoldable pub insert_by_age : Text → ℕ → Assoc Text ℕ → Assoc Text ℕ
insert_by_age k at [] = (k, at) ∷ []
insert_by_age k at ((j, t) ∷ m) =
    let rest = insert_by_age k at m in if leb at t then (k, at) ∷ (j, t) ∷ m else (j, t) ∷ rest

unfoldable pub sort_by_age : Assoc Text ℕ → Assoc Text ℕ
unfolding insert_by_age
sort_by_age [] = []
sort_by_age ((k, at) ∷ m) = insert_by_age k at (sort_by_age m)

unfoldable pub oldest_playlists : ℕ → Assoc Text (Text × ℕ) → List Text
unfolding by_age sort_by_age
oldest_playlists drop_count playlists =
    map (λ entry. entry.0) (take drop_count (sort_by_age (by_age playlists)))

-- The three passes of `evict_caches`.
unfoldable pub evict_playlists : HlsCache → HlsCache
evict_playlists c =
    if ltb cache_max_cameras (length c.playlists)
    then (let drop_count = length c.playlists - cache_max_cameras in
        let oldest = oldest_playlists drop_count c.playlists in
        record c {
          playlists = Assoc.remove_all oldest c.playlists;
          playlist_updates = Assoc.remove_all oldest c.playlist_updates;
        })
    else c

unfoldable pub evict_access_log : HlsCache → ℕ → HlsCache
evict_access_log c now =
    if ltb access_log_max_entries (length c.access_logged)
    then record c {
      access_logged = Assoc.retain (λ _ ts. leb (now - access_log_interval * 2) ts) c.access_logged;
    }
    else c

unfoldable pub evict_caches : HlsCache → ℕ → HlsCache
evict_caches c now = evict_stale_cameras (evict_access_log (evict_playlists c) now) now

unfoldable pub set_playlist : HlsCache → Text → Text → ℕ → HlsCache
set_playlist c camera_id playlist now = record c {
  playlists = Assoc.insert camera_id (playlist, now) c.playlists;
}

-- The cached playlist and its age.
unfoldable pub playlist : HlsCache → Text → ℕ → Option (Text × ℕ)
playlist c camera_id now = elim (Assoc.get camera_id c.playlists) [
  | none ↦ none
  | some (text, ts) ↦ some (text, now - ts)
]

abbrev pub count_or_zero : Option ℕ → ℕ
count_or_zero none = 0
count_or_zero (some n) = n

-- The counter is 64 bits wide.
unfoldable pub bump_playlist_count : HlsCache → Text → ℕ → HlsCache × Bool
bump_playlist_count c camera_id interval =
    let count = (count_or_zero (Assoc.get camera_id c.playlist_updates) + 1) % 2 ^ 64 in
    (
      record c { playlist_updates = Assoc.insert camera_id count c.playlist_updates },
      not (nat_beq interval 0) && nat_beq (count % interval) 0,
    )

-- `HashSet::insert`: whether the camera was new.
unfoldable pub first_playlist_push : HlsCache → Text → HlsCache × Bool
first_playlist_push c camera_id = (
  record c { first_playlist_logged = Assoc.insert camera_id tt c.first_playlist_logged },
  not (Assoc.contains camera_id c.first_playlist_logged),
)

unfoldable pub first_stream_get : HlsCache → Text → HlsCache × Bool
first_stream_get c camera_id = (
  record c { first_stream_get_logged = Assoc.insert camera_id tt c.first_stream_get_logged },
  not (Assoc.contains camera_id c.first_stream_get_logged),
)

abbrev pub logged_recently : Option ℕ → ℕ → Bool
logged_recently none now = false
logged_recently (some last) now = ltb (now - last) access_log_interval

unfoldable pub access_log_due : HlsCache → Text → Text → ℕ → HlsCache × Bool
access_log_due c user_id camera_id now =
    if logged_recently (Assoc.get (user_id, camera_id) c.access_logged) now
    then (c, false)
    else (record c { access_logged = Assoc.insert (user_id, camera_id) now c.access_logged }, true)

-- `cache_occupancy`: how many cameras have a playlist, and how many a bucket.
unfoldable pub cache_occupancy : HlsCache → ℕ × ℕ
cache_occupancy c = (length c.playlists, length c.segments.cameras)
