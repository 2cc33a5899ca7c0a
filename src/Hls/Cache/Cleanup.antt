-- ===== src/Hls/Cache/Cleanup.antt =====
-- hls.rs, `cleanup_camera` and the stale sweep: what they forget, and what they leave.
use sentinel_command.Prelude.{◌≡◌, refl, ap, ◌∙◌, inl, inr, false, none, arith, Option-cases, ◌≢◌}
use sentinel_command.Prelude.Int.{pos, pos_sub}
use sentinel_command.Interfaces.{◌==◌, ==-refl}
use sentinel_command.Text.{Text, text_eq, text_beq_iff}
use sentinel_command.Assoc.{Assoc, total, Distinct, AllValues, member}
use sentinel_command.Assoc
use sentinel_command.Assoc.Laws as AssocLaws
use sentinel_command.Hls.Segments.{bucket_bytes}
use sentinel_command.Hls.Segments.Invariant.{SortedBucket, IsConsistent}
use sentinel_command.Hls.Cache.{HlsCache, cleanup_camera}

-- No segment, playlist, counter of updates or flag of a camera is held.
pub record Forgotten (camera_id : Text) (c : HlsCache) : Type 0 where
  pub segments : Assoc.get camera_id c.segments.cameras ≡ none
  pub playlist : Assoc.get camera_id c.playlists ≡ none
  pub updates : Assoc.get camera_id c.playlist_updates ≡ none
  pub playlist_flag : Assoc.get camera_id c.first_playlist_logged ≡ none
  pub stream_flag : Assoc.get camera_id c.first_stream_get_logged ≡ none

-- Two caches hold the same segments, playlist, counter of updates and flags of a camera.
pub record SameFor (camera_id : Text) (c d : HlsCache) : Type 0 where
  pub segments : Assoc.get camera_id d.segments.cameras ≡ Assoc.get camera_id c.segments.cameras
  pub playlist : Assoc.get camera_id d.playlists ≡ Assoc.get camera_id c.playlists
  pub updates : Assoc.get camera_id d.playlist_updates ≡ Assoc.get camera_id c.playlist_updates
  pub playlist_flag :
      Assoc.get camera_id d.first_playlist_logged ≡ Assoc.get camera_id c.first_playlist_logged
  pub stream_flag :
      Assoc.get camera_id d.first_stream_get_logged ≡ Assoc.get camera_id c.first_stream_get_logged

get-remove_self {ℓ} :
    {V : Type ℓ} (k : Text) (m : Assoc Text V) → Assoc.get k (Assoc.remove k m) ≡ none
get-remove_self k m = AssocLaws.get-remove k k m ∙ rw (==-refl k)

get-remove_ne {ℓ} :
    {V : Type ℓ} (k j : Text) (m : Assoc Text V)
    → (k == j) ≡ false
    → Assoc.get j (Assoc.remove k m) ≡ Assoc.get j m
get-remove_ne k j m h = AssocLaws.get-remove k j m ∙ rw h

cleanup_camera-Forgotten :
    (c : HlsCache) (camera_id : Text) → Forgotten camera_id (cleanup_camera c camera_id)
unfolding cleanup_camera
cleanup_camera-Forgotten c camera_id = record {
  segments = get-remove_self camera_id c.segments.cameras;
  playlist = get-remove_self camera_id c.playlists;
  updates = get-remove_self camera_id c.playlist_updates;
  playlist_flag = get-remove_self camera_id c.first_playlist_logged;
  stream_flag = get-remove_self camera_id c.first_stream_get_logged;
}

cleanup_camera-SameFor :
    (c : HlsCache) (camera_id other : Text)
    → (camera_id == other) ≡ false
    → SameFor other c (cleanup_camera c camera_id)
unfolding cleanup_camera
cleanup_camera-SameFor c camera_id other h = record {
  segments = get-remove_ne camera_id other c.segments.cameras h;
  playlist = get-remove_ne camera_id other c.playlists h;
  updates = get-remove_ne camera_id other c.playlist_updates h;
  playlist_flag = get-remove_ne camera_id other c.first_playlist_logged h;
  stream_flag = get-remove_ne camera_id other c.first_stream_get_logged h;
}

cleanup_camera-IsConsistent :
    (c : HlsCache) (camera_id : Text)
    → IsConsistent c.segments
    → IsConsistent (cleanup_camera c camera_id).segments
unfolding cleanup_camera
cleanup_camera-IsConsistent c camera_id v = record {
  distinct = AssocLaws.remove-Distinct camera_id c.segments.cameras v.distinct;
  sorted = AssocLaws.remove-AllValues SortedBucket camera_id c.segments.cameras v.sorted;
  counted =
      (let bytes = AssocLaws.total-remove bucket_bytes camera_id c.segments.cameras v.distinct in
        elim (Option-cases (Assoc.get camera_id c.segments.cameras)) [
          | inl e ↦ rw (e, cleanup_camera) (v.counted ∙ ap pos (omega (arith, rw e at bytes)))
          | inr (bucket, e) ↦
              rw (e, cleanup_camera)
                (rw
                  (
                    v.counted,
                    pos_sub (total bucket_bytes c.segments.cameras) (bucket_bytes bucket)
                        (omega (arith, rw e at bytes)),
                  )
                  (ap pos (omega (arith, rw e at bytes))))
        ]);
}

-- Deleting a camera forgets its segments, its playlist, its counter of updates and its two flags,
-- and none of these of any other camera; the byte total stays the sum of what is left; and the
-- access log's stamps, also those of the camera, stay.
pub cleanup_camera_lem :
    (c : HlsCache) (camera_id : Text)
    → IsConsistent c.segments
    → Forgotten camera_id (cleanup_camera c camera_id)
      × ((other : Text) → camera_id ≢ other → SameFor other c (cleanup_camera c camera_id))
      × IsConsistent (cleanup_camera c camera_id).segments
      × ((cleanup_camera c camera_id).access_logged ≡ c.access_logged)
cleanup_camera_lem c camera_id v = (
  cleanup_camera-Forgotten c camera_id,
  λ other h.
      cleanup_camera-SameFor c camera_id other (ground (arith, text_beq_iff camera_id other)),
  cleanup_camera-IsConsistent c camera_id v,
  unfold cleanup_camera in refl,
)
